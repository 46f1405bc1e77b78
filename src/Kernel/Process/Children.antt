-- ===== src/Kernel/Process/Children.antt =====
-- `wait`: the value that a child left, once.
use os_shell.Common.{
  ℕ, ◌<◌, ◌≡◌, refl, ◌⊎◌, Option-cases, inl, inr, Option, none, some, arith, ◌==◌, if◌then◌else◌,
  set, ◌∙◌, length-set,
}
use os_shell.Kernel.Process.{
  Process, n_child, minus_one, kind_of, index_of, id_of, proc, get_child_index, Waited, wait,
}
use os_shell.Kernel.Process.Tables.{IsValid, lookup, Updated, slot_out, children-Updated}

-- The future of a child, if the id is that of a child that has not been waited for.
abbrev pub child_of : ℕ → Process → Option ℕ
child_of id p = if kind_of id == proc then lookup id p else none

-- What `wait` does: `none` is that it blocks.
abbrev pub Waits : (output : ℕ → Option ℕ) → ℕ → Process → Option Waited → Type 0
Waits output id p result =
    ((child_of id p ≡ none) × (result ≡ some (minus_one, none, p)))
    ⊎ ((e : ℕ) × (child_of id p ≡ some e)
        × (((output e ≡ none) × (result ≡ none))
            ⊎ ((v : ℕ) × (p' : Process) × (output e ≡ some v)
                × (result ≡ some (0, some v, p'))
                × Updated p id none p'
                × IsValid p')))

module _ (output : ℕ → Option ℕ) (id : ℕ) (p : Process) where
  wait_unknown : IsValid p → child_of id p ≡ none → wait output id p ≡ some (minus_one, none, p)
  unfolding wait get_child_index lookup
  wait_unknown v h = ground (arith, slot_out p.children (index_of id))

  abbrev reaped : Process
  reaped = record p { children = set p.children (index_of id) none }

  wait_child :
      (e : ℕ)
      → IsValid p
      → child_of id p ≡ some e
      → (index_of id < n_child)
        × (kind_of id ≡ proc)
        × (wait output id p ≡ elim (output e) [ none ↦ none | some v ↦ some (0, some v, reaped) ])
  unfolding wait get_child_index lookup
  wait_child e v h =
      let k : kind_of id ≡ proc = ground arith in
      let i : index_of id < n_child = ground (arith, slot_out p.children (index_of id)) in
      (i, k, ground arith)

-- `wait` on an id that is not a child's returns -1 and changes nothing. On a child that has not
-- exited it blocks. On one that has it returns 0, stores the child's status, and forgets the child
-- and nothing else.
pub wait_lem :
    (output : ℕ → Option ℕ) (id : ℕ) (p : Process)
    → IsValid p
    → Waits output id p (wait output id p)
wait_lem output id p v = elim (Option-cases (child_of id p)) [
  | inl h ↦ inl (h, wait_unknown output id p v h)
  | inr (e, h) ↦
      let (i, k, step) = wait_child output id p e v h in
      inr (
        e,
        h,
        elim (Option-cases (output e)) [
          | inl unset ↦ inl (unset, step ∙ rw unset refl)
          | inr (status, done) ↦
              let same : id_of proc (index_of id) ≡ id = omega arith in
              inr (
                status,
                reaped output id p,
                done,
                step ∙ rw done refl,
                rw same at (
                    children-Updated p none (index_of id) (omega (arith, v.children_size))
                      (omega arith)),
                ground (arith, length-set p.children (index_of id) none),
              )
        ],
      )
]

-- A child can be waited for once: after a `wait` that returned 0, another on the same id returns -1.
pub wait_once :
    (output : ℕ → Option ℕ) (id v : ℕ) (p p' : Process)
    → IsValid p
    → wait output id p ≡ some (0, some v, p')
    → wait output id p' ≡ some (minus_one, none, p')
wait_once output id v p p' valid h = elim (wait_lem output id p valid) [
  | inl (c, e) ↦ absurd (ground (arith, h, e))
  | inr (e, c, inl (unset, blocks)) ↦ absurd (ground (arith, h, blocks))
  | inr (e, c, inr (w, q, done, r, u, v')) ↦
      let same : p' ≡ q = ground (arith, h, r) in
      rw same (wait_unknown output id q v' (ground (arith, u id)))
]
