-- ===== src/Kernel/Threads/Kept.antt =====
-- Each thread in one place, and the idle ones on their cores, as an invariant.
use os_shell.Common.{
  ℕ, zero, suc, ◌+◌, ◌≡◌, refl, Bool, true, false, Option, none, some, List, [], ◌∷◌, ◌++◌, arith,
  if◌then◌else◌, get_elem?, set, All, All-append, subst,
}
use os_shell.Kernel.Threads.{
  Tcb, Core, Threads, Stage, running, asking, chosen, leaving, acting, Action, to_ready, to_zombies,
  to_wait, schedule, finish, put,
}
use os_shell.Kernel.Threads.Places.{total-append, total-set, is_thread, holds, places, is_made}

pub All-get_elem? {ℓ κ} :
    {A : Type ℓ} (P : A → Type κ) (xs : List A) (i : ℕ) (x : A)
    → All P xs
    → get_elem? xs i ≡ some x
    → P x
All-get_elem? P [] i x h e = cc
All-get_elem? P (y ∷ ys) zero x h e = let f : y ≡ x = cc in subst P f h.0
All-get_elem? P (y ∷ ys) (suc i) x h e = All-get_elem? P ys i x h.1 e

pub All-set {ℓ κ} :
    {A : Type ℓ} (P : A → Type κ) (xs : List A) (i : ℕ) (x : A)
    → All P xs
    → P x
    → All P (set xs i x)
All-set P [] i x h p = tt
All-set P (y ∷ ys) zero x h p = (p, h.1)
All-set P (y ∷ ys) (suc i) x h p = (h.0, All-set P ys i x h.1 p)

-- An idle thread stays on its own core, and only calls `stop`.
abbrev pub IsOwnStage : Core → Stage → Type 0
IsOwnStage core running = core.active.is_idle ≡ false
IsOwnStage core (asking must action) =
    core.active.is_idle ≡ true → (must ≡ true) × (action ≡ to_zombies)
IsOwnStage core (chosen next action) =
    (core.active.is_idle ≡ true → action ≡ to_zombies) × (next.is_idle ≡ true → next ≡ core.idle)
IsOwnStage core (leaving me action) = me.is_idle ≡ true → action ≡ to_zombies
IsOwnStage core (acting me action) = me.is_idle ≡ true → action ≡ to_zombies

pub record IsOwn (core : Core) : Type 0 where
  pub is_idle : core.idle.is_idle ≡ true
  pub is_here : core.active.is_idle ≡ true → core.active ≡ core.idle
  pub stage : IsOwnStage core core.stage

pub record IsKept (procs n : ℕ) (s : Threads) : Type 0 where
  pub made : (i : ℕ) → places i s ≡ is_made procs n i
  pub own : All IsOwn s.cores
  pub ready : All (λ t. t.is_idle ≡ false) s.ready
  pub numbered : s.next_id ≡ n

abbrev pub IsKeptBy : ℕ → ℕ → Option Threads → Type 0
IsKeptBy procs n none = Unit
IsKeptBy procs n (some s) = IsKept procs n s

-- The same, where one thread has been taken from its place.
pub record IsKeptBut (procs n : ℕ) (t : Tcb) (s : Threads) : Type 0 where
  pub made : (i : ℕ) → places i s + is_thread i t ≡ is_made procs n i
  pub own : All IsOwn s.cores
  pub ready : All (λ u. u.is_idle ≡ false) s.ready
  pub numbered : s.next_id ≡ n

pub places-put :
    (i c : ℕ) (core core' : Core) (s : Threads)
    → get_elem? s.cores c ≡ some core
    → places i (put c core' s) + holds i core ≡ places i s + holds i core'
unfolding places
places-put i c core core' s h = omega (arith, total-set (holds i) s.cores c core core' h)

pub if_lem {ℓ κ} :
    {A : Type ℓ} (P : A → Type κ) (b : Bool) (x y : A)
    → (b ≡ true → P x)
    → (b ≡ false → P y)
    → P (if b then x else y)
if_lem P true x y h k = h refl
if_lem P false x y h k = k refl

module _ (procs n : ℕ) (t : Tcb) (s : Threads) (k : IsKeptBut procs n t s) where
  -- An idle thread is in no place that counts.
  idle-IsKept : t.is_idle ≡ true → IsKept procs n s
  idle-IsKept e = record {
    made = λ i. ground (arith, k.made i, e);
    own = k.own;
    ready = k.ready;
    numbered = k.numbered;
  }

  pub schedule-IsKept : IsKept procs n (schedule t s)
  unfolding schedule places
  schedule-IsKept =
      if_lem (IsKept procs n) t.is_idle s (record s { ready = s.ready ++ t ∷ [] }) idle-IsKept
        (λ e. record {
          made = λ i. omega (arith, total-append (is_thread i) s.ready t, k.made i);
          own = k.own;
          ready = All-append (λ u. u.is_idle ≡ false) s.ready (t ∷ []) (k.ready, (e, tt));
          numbered = k.numbered;
        })

  pub finish-IsKept : (action : Action) → IsKeptBy procs n (finish t action s)
  unfolding finish places
  finish-IsKept to_ready = schedule-IsKept
  finish-IsKept to_zombies =
      if_lem (IsKept procs n) t.is_idle s (record s { zombies = s.zombies ++ t ∷ [] }) idle-IsKept
        (λ e. record {
          made = λ i. omega (arith, total-append (is_thread i) s.zombies t, k.made i);
          own = k.own;
          ready = k.ready;
          numbered = k.numbered;
        })
  finish-IsKept to_wait =
      if_lem (IsKeptBy procs n) t.is_idle _ _ (λ e. tt)
        (λ e. record {
          made = λ i. omega (arith, total-append (is_thread i) s.waiting t, k.made i);
          own = k.own;
          ready = k.ready;
          numbered = k.numbered;
        })
