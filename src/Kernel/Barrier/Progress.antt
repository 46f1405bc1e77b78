-- ===== src/Kernel/Barrier/Progress.antt =====
-- No schedule lets a thread through early, panics, blocks for ever or goes on for ever.
use os_shell.Common.{
  ℕ, suc, ◌+◌, ◌*◌, ◌^◌, ◌≤◌, ◌<◌, ◌≡◌, ◌≢◌, ◌⊎◌, refl, none, some, List, [], ◌∷◌, arith, length,
  get_or, ap, sym, subst, ◌∙◌, Option-cases, inl, inr,
}
use os_shell.Kernel.Barrier.{
  Barrier, Phase, outside, last, early, asleep, passed, done, start, phase, leave, enter, step, run,
}
use os_shell.Kernel.Barrier.Phases.{
  total, total-replicate, le-total, is_outside, has_token, is_past, is_asleep, steps_left, occurs,
  outside-ne-done,
}
use os_shell.Kernel.Barrier.Meeting.{IsMeeting, thread_inside}
use os_shell.Kernel.Barrier.Safe.{arrive-IsMeeting, left-IsMeeting, entered-IsMeeting}
use os_shell.Kernel.Barrier.Less.{
  start-IsMeeting, none-ne-some, some-injective, last-ne-done, passed-ne-done, last-ne-asleep,
  passed-ne-asleep, leave_less, enter_less, arrive_less,
}

-- Where a thread can move, the step is made, the barrier stays as it should be, and there is less to
-- do than before.
abbrev Moves : ℕ → ℕ → Barrier → Type 0
Moves n i b =
    (b' : Barrier) × (step i b ≡ some b')
    × IsMeeting n b'
    × (total steps_left b'.phases < total steps_left b.phases)

step_lem :
    (n i : ℕ) (b : Barrier)
    → IsMeeting n b
    → (p : Phase) → phase b i ≡ p
    → Moves n i b ⊎ ((step i b ≡ none) × ((p ≡ asleep) ⊎ (p ≡ done)))
unfolding step
step_lem n i b m outside e =
    let (b', a, m') = arrive-IsMeeting n b m i e in
    inl (b', rw (e, step) a, m', arrive_less i b b' e a)
step_lem n i b m last e = inl (
  leave i b,
  rw (e, step),
  left-IsMeeting n b m i last e (refl, refl, refl, refl, last-ne-done),
  leave_less n i b last m e last-ne-done last-ne-asleep (omega arith),
)
step_lem n i b m early e =
    inl (enter i b, rw (e, step), entered-IsMeeting n b m i e, enter_less i b e)
step_lem n i b m asleep e = inr (rw (e, step), inl refl)
step_lem n i b m passed e = inl (
  leave i b,
  rw (e, step),
  left-IsMeeting n b m i passed e (refl, refl, refl, refl, passed-ne-done),
  leave_less n i b passed m e passed-ne-done passed-ne-asleep (omega arith),
)
step_lem n i b m done e = inr (rw (e, step), inr refl)

step-IsMeeting :
    (n i : ℕ) (b b' : Barrier)
    → IsMeeting n b
    → step i b ≡ some b'
    → IsMeeting n b' × (total steps_left b'.phases < total steps_left b.phases)
step-IsMeeting n i b b' m h = elim (step_lem n i b m (phase b i) refl) [
  | inl (c, e, m', less) ↦
      let same : c ≡ b' = some-injective (sym e ∙ h) in
      (
        subst (IsMeeting n) same m',
        subst (λ x. total steps_left x.phases < total steps_left b.phases) same less,
      )
  | inr (e, stuck) ↦ absurd (none-ne-some (sym e ∙ h))
]

run-IsMeeting :
    (n : ℕ) (schedule : List ℕ) (b b' : Barrier)
    → IsMeeting n b
    → run schedule b ≡ some b'
    → IsMeeting n b' × (total steps_left b'.phases + length schedule ≤ total steps_left b.phases)
unfolding run
run-IsMeeting n [] b b' m h =
    let same : b ≡ b' = some-injective h in (subst (IsMeeting n) same m, rw (← same) (omega arith))
run-IsMeeting n (i ∷ schedule) b b' m h = elim (Option-cases (step i b)) [
  | inl e ↦ absurd (none-ne-some (sym (rw (e, run)) ∙ h))
  | inr (c, e) ↦
      let (mc, less) = step-IsMeeting n i b c m e in
      let (m', rest) = run-IsMeeting n schedule c b' mc (sym (rw (e, run)) ∙ h) in
      (m', omega (arith, less, rest))
]

outside-ne-asleep : outside ≢ asleep
outside-ne-asleep h = cc

-- Where no thread can move, each is asleep or done.
stuck_phase :
    (n : ℕ) (b : Barrier)
    → IsMeeting n b
    → ((i : ℕ) → step i b ≡ none)
    → (i : ℕ) → (phase b i ≡ asleep) ⊎ (phase b i ≡ done)
stuck_phase n b m stuck i = elim (step_lem n i b m (phase b i) refl) [
  | inl (b', s, m', less) ↦ absurd (none-ne-some (sym (stuck i) ∙ s))
  | inr (e, p) ↦ p
]

none_of :
    (w : Phase → ℕ) (ps : List Phase)
    → w asleep ≡ 0
    → w done ≡ 0
    → ((i : ℕ) → (get_or ps i done ≡ asleep) ⊎ (get_or ps i done ≡ done))
    → total w ps ≡ 0
unfolding total
none_of w [] a d h = refl
none_of w (p ∷ ps) a d h =
    let rest = none_of w ps a d (λ i. h (suc i)) in
    elim (h 0) [ inl e ↦ omega (arith, ap w e, rest) | inr e ↦ omega (arith, ap w e, rest) ]

all_done :
    (n : ℕ) (b : Barrier) → IsMeeting n b → ((i : ℕ) → step i b ≡ none) → (i : ℕ) → phase b i ≡ done
unfolding occurs
all_done n b m stuck i =
    let phases = stuck_phase n b m stuck in
    let none_out = none_of is_outside b.phases refl refl phases in
    let no_token = none_of has_token b.phases refl refl phases in
    let raised : 0 < b.sem.count = omega (arith, m.coming, m.token (omega (arith, m.coming))) in
    elim (phases i) [
      | inr d ↦ d
      | inl a ↦ absurd (omega (arith, m.queue i, ap is_asleep a, ap (occurs i) (m.unneeded raised)))
    ]

-- No thread is past the barrier while one has not come: in every interleaving of the steps of `n`
-- threads, where a thread has got through, has been told to raise the semaphore, or is done, each of
-- the threads has made its decrement; and no thread that comes meets the panic.
pub barrier_safe :
    (n : ℕ) (schedule : List ℕ) (b : Barrier)
    → 0 < n
    → n < 2 ^ 31
    → run schedule (start n) ≡ some b
    → ((i j : ℕ) → i < n → is_past (phase b i) ≡ 1 → phase b j ≢ outside)
      × ((i : ℕ) → phase b i ≡ outside → (b' : Barrier) × (step i b ≡ some b'))
barrier_safe n schedule b h small r =
    let m = (run-IsMeeting n schedule (start n) b (start-IsMeeting n h small) r).0 in
    (
      λ i j inside past out.
          let there = thread_inside b.phases j (λ d. outside-ne-done (sym out ∙ d)) in
          absurd (
            omega (
              arith,
              m.past_shut (
                  omega (arith, m.coming, le-total is_outside b.phases j there, ap is_outside out)),
              le-total is_past b.phases i (omega (arith, m.size)),
            )),
      λ i e. elim (step_lem n i b m outside e) [
        | inl (b', s, m', less) ↦ (b', s)
        | inr (stuck, inl f) ↦ absurd (outside-ne-asleep f)
        | inr (stuck, inr f) ↦ absurd (outside-ne-done f)
      ],
    )

-- All threads get through: in every interleaving there are at most `4 * n` steps, and where no
-- thread can make another, every thread is done.
pub barrier_live :
    (n : ℕ) (schedule : List ℕ) (b : Barrier)
    → 0 < n
    → n < 2 ^ 31
    → run schedule (start n) ≡ some b
    → (length schedule ≤ 4 * n) × (((i : ℕ) → step i b ≡ none) → (i : ℕ) → phase b i ≡ done)
unfolding start
barrier_live n schedule b h small r =
    let (m, bound) = run-IsMeeting n schedule (start n) b (start-IsMeeting n h small) r in
    (grind (arith, bound, total-replicate steps_left n outside), λ stuck i. all_done n b m stuck i)
