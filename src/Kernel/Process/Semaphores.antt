-- ===== src/Kernel/Process/Semaphores.antt =====
-- The semaphores of a process: `newSemaphore` and `getSemaphore`.
use os_shell.Common.{
  ℕ, ◌<◌, ◌≡◌, refl, ◌⊎◌, inl, inr, none, some, arith, ◌==◌, if◌then◌else◌, set, ap, ◌∙◌,
  length-set,
}
use os_shell.Kernel.Process.{
  Process, n_sem, minus_one, kind_of, index_of, id_of, sem, free_slot, new_semaphore, get_semaphore,
}
use os_shell.Kernel.Process.Tables.{
  IsValid, lookup, Updated, slot_out, sems-Updated, IsLowest, free_slot_lem,
}

-- An id of the kind SEM stands for what its slot holds, and an id of another kind for nothing.
pub get_semaphore_lem :
    (id : ℕ) (p : Process)
    → IsValid p
    → get_semaphore id p ≡ (if kind_of id == sem then lookup id p else none)
unfolding get_semaphore lookup
get_semaphore_lem id p v = ground (arith, slot_out p.sems (index_of id))

-- What `newSemaphore` does.
abbrev pub Created : ℕ → Process → ℕ × Process → Type 0
Created fresh p (r, p') =
    ((r ≡ minus_one) × (p' ≡ p) × IsLowest p.sems none)
    ⊎ ((k : ℕ) × IsLowest p.sems (some k)
        × (r ≡ id_of sem k)
        × (get_semaphore r p' ≡ some fresh)
        × Updated p r (some fresh) p'
        × IsValid p')

-- `newSemaphore` returns -1 and changes nothing if all slots are taken. Otherwise it returns the id
-- of the lowest free slot, `getSemaphore` of that id is then the new semaphore, and what every other
-- id stands for, of any kind, stays as it was.
pub new_semaphore_lem :
    (fresh : ℕ) (p : Process) → IsValid p → Created fresh p (new_semaphore fresh p)
unfolding new_semaphore
new_semaphore_lem fresh p v = elim (free_slot_lem 0 p.sems) [
  | inl (e, all) ↦ rw (e, new_semaphore) (inl (refl, refl, all))
  | inr (k, e, low) ↦
      let e' : free_slot 0 p.sems ≡ some k = e ∙ ap some (omega arith) in
      let small : k < n_sem = omega (arith, low.0, v.sems_size) in
      let index : index_of k ≡ k = omega arith in
      let u = sems-Updated p (some fresh) k low.0 (omega arith) in
      let v' : IsValid (record p { sems = set p.sems k (some fresh) }) =
        ground (arith, length-set p.sems k (some fresh)) in
      rw (e', index, new_semaphore)
        (inr (
          k,
          low,
          refl,
          ground (
            arith,
            get_semaphore_lem (id_of sem k) (record p { sems = set p.sems k (some fresh) }) v',
            u (id_of sem k),
          ),
          u,
          v',
        ))
]
