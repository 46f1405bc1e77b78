-- ===== src/Kernel/Barrier/Meeting.antt =====
-- Invariant of the barrier's schedules, and what the semaphore does in it.
use os_shell.Common.{
  ℕ, zero, suc, ◌+◌, ◌-◌, ◌%◌, ◌^◌, ◌<◌, ◌≡◌, ◌≢◌, ◌⊎◌, refl, none, some, List, [], ◌∷◌, ◌++◌,
  arith, true, false, ◌==◌, ltb, length, get_or, get_or-set_self, get_or-set_ne, set, ap, ◌∙◌,
  Bool-cases, inl, inr,
}
use os_shell.Kernel.Semaphore
use os_shell.Kernel.Semaphore.{Semaphore, acquired, blocked}
use os_shell.Kernel.Barrier.{Barrier, Phase, outside, last, early, asleep, passed, done, phase}
use os_shell.Kernel.Barrier.Phases.{
  total, total-set, is_outside, has_token, is_past, is_asleep, occurs,
}

pub record IsMeeting (n : ℕ) (b : Barrier) : Type 0 where
  pub positive : 0 < n
  pub small : n < 2 ^ 31
  pub size : length b.phases ≡ n
  pub coming : total is_outside b.phases ≡ b.count
  pub past_shut : 0 < b.count → total is_past b.phases ≡ 0
  pub sem_shut : 0 < b.count → b.sem.count ≡ 0
  pub token : b.count ≡ 0 → total has_token b.phases + b.sem.count ≡ 1
  pub queue : (i : ℕ) → occurs i b.sem.waiting ≡ is_asleep (phase b i)
  pub unneeded : 0 < b.sem.count → b.sem.waiting ≡ []

pub total_of :
    (w : Phase → ℕ) (ps : List Phase) (i : ℕ) (p q : Phase)
    → get_or ps i done ≡ p
    → i < length ps
    → total w (set ps i q) + w p ≡ total w ps + w q
total_of w ps i p q e h = omega (arith, total-set w ps i q h, ap w e)

pub thread_inside : (ps : List Phase) (i : ℕ) → get_or ps i done ≢ done → i < length ps
thread_inside [] i h = absurd (h refl)
thread_inside (p ∷ ps) zero h = omega arith
thread_inside (p ∷ ps) (suc i) h = omega (arith, thread_inside ps i h)

pub asleep_as_before :
    (ps : List Phase) (i j : ℕ) (p q : Phase)
    → get_or ps i done ≡ p
    → is_asleep p ≡ is_asleep q
    → i < length ps
    → is_asleep (get_or ps j done) ≡ is_asleep (get_or (set ps i q) j done)
asleep_as_before ps i j p q e same h = elim (Bool-cases (j == i)) [
  | inl f ↦
      let at : j ≡ i = ground arith in
      rw (at, get_or-set_self ps i q done h) (ap is_asleep e ∙ same)
  | inr f ↦ rw (get_or-set_ne ps i j q done (λ g. ground arith))
]

pub List-cases {ℓ} : {A : Type ℓ} (l : List A) → (l ≡ []) ⊎ ((x : A) × (xs : List A) × (l ≡ x ∷ xs))
List-cases [] = inl refl
List-cases (x ∷ xs) = inr (x, xs, refl)

pub up_empty :
    (s : Semaphore)
    → s.waiting ≡ []
    → Semaphore.up s ≡ (none, record s { count = (s.count + 1) % 2 ^ 64 })
unfolding Semaphore.up
up_empty s e = rw e

pub up_next :
    (s : Semaphore) (t : ℕ) (ts : List ℕ)
    → s.waiting ≡ t ∷ ts
    → Semaphore.up s ≡ (some t, record s { waiting = ts })
unfolding Semaphore.up
up_next s t ts e = rw e

pub down_free :
    (me : ℕ) (s : Semaphore)
    → ltb 0 s.count ≡ true
    → Semaphore.down me s ≡ acquired (record s { count = s.count - 1 })
unfolding Semaphore.down
down_free me s e = rw e

pub down_taken :
    (me : ℕ) (s : Semaphore)
    → ltb 0 s.count ≡ false
    → Semaphore.down me s ≡ blocked (record s { waiting = s.waiting ++ me ∷ [] })
unfolding Semaphore.down
down_taken me s e = rw e

pub asleep_one : (p : Phase) → 0 < is_asleep p → p ≡ asleep
asleep_one outside h = absurd (omega arith)
asleep_one last h = absurd (omega arith)
asleep_one early h = absurd (omega arith)
asleep_one asleep h = refl
asleep_one passed h = absurd (omega arith)
asleep_one done h = absurd (omega arith)
