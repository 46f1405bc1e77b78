-- ===== src/Kernel/Threads/Places.antt =====
-- Where the threads are: on a core, in a queue or deleted.
use os_shell.Common.{
  ℕ, zero, suc, ◌+◌, ◌≤◌, ◌≡◌, refl, Option, none, some, List, [], ◌∷◌, ◌++◌, arith, ◌==◌, ltb,
  ◌&&◌, not, if◌then◌else◌, get_elem?, set, ◌>>=◌, ap,
}
use os_shell.Kernel.Threads.{
  Tcb, Core, Threads, running, asking, chosen, leaving, acting, remove_at,
}

unfoldable pub total {ℓ} : {A : Type ℓ} → (A → ℕ) → List A → ℕ
total w [] = 0
total w (x ∷ xs) = w x + total w xs

module _ {ℓ} {A : Type ℓ} (w : A → ℕ) where
  pub total-append : (xs : List A) (x : A) → total w (xs ++ x ∷ []) ≡ total w xs + w x
  unfolding total
  total-append [] x = omega arith
  total-append (y ∷ ys) x = omega (arith, total-append ys x)

  pub total-set :
      (xs : List A) (i : ℕ) (x y : A)
      → get_elem? xs i ≡ some x
      → total w (set xs i y) + w x ≡ total w xs + w y
  unfolding total
  total-set [] i x y h = cc
  total-set (z ∷ zs) zero x y h = let e : z ≡ x = cc in omega (arith, ap w e)
  total-set (z ∷ zs) (suc i) x y h = omega (arith, total-set zs i x y h)

  pub le-total : (xs : List A) (i : ℕ) (x : A) → get_elem? xs i ≡ some x → w x ≤ total w xs
  unfolding total
  le-total [] i x h = cc
  le-total (z ∷ zs) zero x h = let e : z ≡ x = cc in omega (arith, ap w e)
  le-total (z ∷ zs) (suc i) x h = omega (arith, le-total zs i x h)

-- A thread with a stack of its own that has number `i`.
abbrev pub is_thread : ℕ → Tcb → ℕ
is_thread i t = if t.is_idle then 0 else if t.id == i then 1 else 0

abbrev pub occurs : ℕ → List Tcb → ℕ
occurs i ts = total (is_thread i) ts

-- The threads that a core holds.
unfoldable pub holds : ℕ → Core → ℕ
holds i core = elim core.stage [
  | running ↦ is_thread i core.active
  | asking must action ↦ is_thread i core.active
  | chosen next action ↦ is_thread i core.active + is_thread i next
  | leaving me action ↦ is_thread i core.active + is_thread i me
  | acting me action ↦ is_thread i core.active + is_thread i me
]

-- The thread on whose stack a core is: up to the context switch, the one that leaves.
unfoldable pub stack_of : Core → Tcb
stack_of core = elim core.stage [ leaving me action ↦ me | _ ↦ core.active ]

-- In how many places thread `i` is.
unfoldable pub places : ℕ → Threads → ℕ
places i s =
    total (holds i) s.cores
    + occurs i s.ready
    + occurs i s.zombies
    + occurs i s.waiting
    + occurs i s.deleted

-- Thread `i` has been made: it is neither idle nor the next or a later one.
abbrev pub is_made : ℕ → ℕ → ℕ → ℕ
is_made procs next_id i = if (ltb i next_id && not (ltb i procs)) then 1 else 0

-- What `remove_at` takes and leaves has the threads of the list.
abbrev pub Kept : ℕ → Option (Tcb × List Tcb) → ℕ → Type 0
Kept i none n = Unit
Kept i (some (u, us)) n = n ≡ is_thread i u + occurs i us

pub occurs-remove_at : (i k : ℕ) (ts : List Tcb) → Kept i (remove_at k ts) (occurs i ts)
unfolding total remove_at
occurs-remove_at i k [] = tt
occurs-remove_at i zero (t ∷ ts) = refl
occurs-remove_at i (suc k) (t ∷ ts) = at_later (remove_at k ts) (occurs-remove_at i k ts)
  where
    at_later :
        (r : Option (Tcb × List Tcb))
        → Kept i r (occurs i ts)
        → Kept i (r >>= λ p. some (p.0, t ∷ p.1)) (is_thread i t + occurs i ts)
    at_later none h = tt
    at_later (some (u, us)) h = omega (arith, h)
