-- ===== src/Kernel/Process/Fork/Child.antt =====
-- What `fork` gives the child and the parent.
use os_shell.Common.{
  ℕ, zero, suc, ◌<◌, ◌≡◌, refl, ◌⊎◌, inl, inr, true, false, Option, none, some, [], ◌∷◌, arith,
  ◌==◌, if◌then◌else◌, Bool-cases, is_some, set, replicate, ap, ◌∙◌, sym, subst, length, length-set,
  ==_refl,
}
use os_shell.Kernel.Process.{
  Process, Table, slot, n_file, n_sem, n_child, minus_one, kind_of, index_of, id_of, proc,
  free_slot, wait,
}
use os_shell.Kernel.Process.Tables.{
  IsValid, lookup, Updated, children-Updated, IsLowest, free_slot_lem, kind-id_of, index-id_of,
}
use os_shell.Kernel.Process.Children.{child_of, wait_lem}
use os_shell.Kernel.Process.Fork.{copy_some, copy_all, fork}

-- What `fork` does: no child slot is free, or the child has the files and the semaphores of the
-- parent and no children, and the parent has the child's future in the lowest free slot.
abbrev pub Forks : ℕ → Process → ℕ × Option Process × Process → Type 0
Forks output p (id, made, p') =
    ((id ≡ minus_one) × (made ≡ none) × (p' ≡ p) × IsLowest p.children none)
    ⊎ ((k : ℕ) × (child : Process) × (made ≡ some child)
        × IsLowest p.children (some k)
        × (id ≡ id_of proc k)
        × (child.output ≡ output)
        × ((j : ℕ) → lookup j child ≡ (if kind_of j == proc then none else lookup j p))
        × IsValid child
        × Updated p id (some output) p'
        × IsValid p')

copy_some-empty :
    (n : ℕ) (table : Table) → length table ≡ n → copy_some table (replicate n none) ≡ table
unfolding copy_some
copy_some-empty zero [] h = refl
copy_some-empty (suc n) [] h = absurd (omega arith)
copy_some-empty zero (s ∷ table) h = absurd (omega arith)
copy_some-empty (suc n) (none ∷ table) h =
    ap (λ t. none ∷ t) (copy_some-empty n table (omega arith))
copy_some-empty (suc n) (some r ∷ table) h =
    ap (λ t. some r ∷ t) (copy_some-empty n table (omega arith))

copy_all-empty :
    (n : ℕ) (table : Table) → length table ≡ n → copy_all table (replicate n none) ≡ table
unfolding copy_all
copy_all-empty zero [] h = refl
copy_all-empty (suc n) [] h = absurd (omega arith)
copy_all-empty zero (s ∷ table) h = absurd (omega arith)
copy_all-empty (suc n) (s ∷ table) h = ap (λ t. s ∷ t) (copy_all-empty n table (omega arith))

slot-empty : (n i : ℕ) → slot (replicate n none) i ≡ none
slot-empty zero i = refl
slot-empty (suc n) zero = refl
slot-empty (suc n) (suc i) = slot-empty n i

module _ (output : ℕ) (p : Process) (v : IsValid p) where
  abbrev child_process : Process
  child_process = record {
    files = p.files;
    sems = p.sems;
    children = replicate n_child none;
    output = output;
  }

  abbrev parent_process : ℕ → Process
  parent_process k = record p { children = set p.children k (some output) }

  fork_full : free_slot 0 p.children ≡ none → fork output p ≡ (minus_one, none, p)
  unfolding fork
  fork_full e = rw (e, fork) refl

  fork_slot :
      (k : ℕ)
      → free_slot 0 p.children ≡ some k
      → fork output p ≡ (id_of proc k, some child_process, parent_process k)
  unfolding fork
  fork_slot k e =
      rw
        (
          e,
          copy_some-empty n_sem p.sems v.sems_size,
          copy_all-empty n_file p.files v.files_size,
          fork,
        )
        refl

  child_lookup : (j : ℕ) → lookup j child_process ≡ (if kind_of j == proc then none else lookup j p)
  unfolding lookup
  child_lookup j = ground (arith, slot-empty n_child (index_of j))

-- `fork` returns the id -1, makes no process and changes nothing if all child slots are taken.
-- Otherwise the child has the parent's files and semaphores under the same ids and no children, and
-- the parent has the child's future under the id that is returned, that of the lowest free slot, and
-- is the same elsewhere.
pub fork_lem : (output : ℕ) (p : Process) → IsValid p → Forks output p (fork output p)
fork_lem output p v = elim (free_slot_lem 0 p.children) [
  | inl (e, all) ↦
      subst (Forks output p) (sym (fork_full output p v e)) (inl (refl, refl, refl, all))
  | inr (k, e, low) ↦
      let small : k < n_child = omega (arith, low.0, v.children_size) in
      subst (Forks output p) (sym (fork_slot output p v k (e ∙ ap some (omega arith)))) (
        inr (
          k,
          child_process output p v,
          refl,
          low,
          refl,
          refl,
          child_lookup output p v,
          record { files_size = v.files_size; sems_size = v.sems_size; children_size = refl },
          children-Updated p (some output) k low.0 (omega arith),
          record {
            files_size = v.files_size;
            sems_size = v.sems_size;
            children_size = length-set p.children k (some output) ∙ v.children_size;
          },
        ))
]

-- A child in a slot that was free is waited for, and the parent is as before.
wait_for_child :
    (futures : ℕ → Option ℕ) (output status id : ℕ) (p p' : Process)
    → kind_of id ≡ proc
    → lookup id p ≡ none
    → Updated p id (some output) p'
    → IsValid p'
    → futures output ≡ some status
    → (q : Process) × (wait futures id p' ≡ some (0, some status, q))
      × ((j : ℕ) → lookup j q ≡ lookup j p)
wait_for_child futures output status id p p' kind free u v' done =
    let there : lookup id p' ≡ some output = u id ∙ rw (==_refl id) refl in
    let child : child_of id p' ≡ some output = rw kind there in
    elim (wait_lem futures id p' v') [
      | inl (c, e) ↦ absurd (ground (arith, child, c))
      | inr (o, c, inl (unset, blocks)) ↦
          let same : o ≡ output = ground (arith, child, c) in
          absurd (ground (arith, done, subst (λ x. futures x ≡ none) same unset))
      | inr (o, c, inr (w, q, d, r, u', v'')) ↦
          let same : o ≡ output = ground (arith, child, c) in
          let value : w ≡ status = ground (arith, done, subst (λ x. futures x ≡ some w) same d) in
          (
            q,
            r ∙ ap (λ x. some (0, some x, q)) value,
            λ j. elim (Bool-cases (j == id)) [
              | inl e ↦
                  let at : j ≡ id = ground arith in
                  u' j ∙ rw e (sym free ∙ ap (λ i. lookup i p) (sym at))
              | inr e ↦ u' j ∙ rw e (u j ∙ rw e refl)
            ],
          )
    ]

slot-lookup : (k : ℕ) (p : Process) → k < n_child → lookup (id_of proc k) p ≡ slot p.children k
unfolding lookup
slot-lookup k p h = rw (kind-id_of proc k (omega arith), index-id_of proc k (omega arith)) refl

-- The parent of a child that was made can wait for it: once the child has set its future, `wait` of
-- the id that `fork` returned gives what the child has set, and the parent is left with what it had.
pub wait-fork :
    (futures : ℕ → Option ℕ) (output status : ℕ) (p : Process)
    → IsValid p
    → is_some (fork output p).1 ≡ true
    → futures output ≡ some status
    → (q : Process) × (wait futures (fork output p).0 (fork output p).2 ≡ some (0, some status, q))
      × ((j : ℕ) → lookup j q ≡ lookup j p)
wait-fork futures output status p v made done = elim (free_slot_lem 0 p.children) [
  | inl (e, all) ↦
      absurd (true_false (subst (λ r. is_some r.1 ≡ true) (fork_full output p v e) made))
  | inr (k, e, low) ↦
      let small : k < n_child = omega (arith, low.0, v.children_size) in
      let parent = parent_process output p v k in
      subst
        (λ r.
          (q : Process) × (wait futures r.0 r.2 ≡ some (0, some status, q))
          × ((j : ℕ) → lookup j q ≡ lookup j p))
        (sym (fork_slot output p v k (e ∙ ap some (omega arith))))
        (wait_for_child futures output status (id_of proc k) p parent
          (kind-id_of proc k (omega arith)) (slot-lookup k p small ∙ low.1)
          (children-Updated p (some output) k low.0 (omega arith))
          (record {
            files_size = v.files_size;
            sems_size = v.sems_size;
            children_size = length-set p.children k (some output) ∙ v.children_size;
          })
          done)
]
  where
    true_false : false ≡ true → ⊥
    true_false e = cc
