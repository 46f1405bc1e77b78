-- ===== src/Kernel/Process/Close.antt =====
-- `close` for every kind of id.
use os_shell.Common.{
  ℕ, zero, suc, ◌<◌, ◌≡◌, refl, ◌⊎◌, Option-cases, inl, inr, true, none, [], ◌∷◌, arith, ◌==◌,
  is_some, length, set, length-set, Bool-cases,
}
use os_shell.Kernel.Process.{
  Process, Table, slot, n_sem, n_child, n_file, minus_one, kind_of, index_of, id_of, fl, proc, sem,
  get_semaphore_index, get_child_index, get_file_index, close,
}
use os_shell.Kernel.Process.Tables.{
  IsValid, lookup, Updated, files-Updated, sems-Updated, children-Updated,
}

-- What `close` does, for an id of any kind.
abbrev pub Closed : ℕ → Process → ℕ × Process → Type 0
Closed id p (r, p') =
    ((is_some (lookup id p) ≡ true) × (r ≡ 0) × Updated p id none p' × IsValid p')
    ⊎ ((lookup id p ≡ none) × (r ≡ minus_one) × (p' ≡ p))

module _ (id : ℕ) (p : Process) where
  close_unknown : IsValid p → lookup id p ≡ none → close id p ≡ (minus_one, p)
  unfolding close get_semaphore_index get_child_index get_file_index lookup
  close_unknown v h = ground arith

  close_sem :
      kind_of id ≡ sem
      → index_of id < n_sem
      → is_some (slot p.sems (index_of id)) ≡ true
      → close id p ≡ (0, record p { sems = set p.sems (index_of id) none })
  unfolding close get_semaphore_index
  close_sem k i h = ground arith

  close_child :
      kind_of id ≡ proc
      → index_of id < n_child
      → is_some (slot p.children (index_of id)) ≡ true
      → close id p ≡ (0, record p { children = set p.children (index_of id) none })
  unfolding close get_semaphore_index get_child_index
  close_child k i h = ground arith

  close_file :
      kind_of id ≡ fl
      → index_of id < n_file
      → is_some (slot p.files (index_of id)) ≡ true
      → close id p ≡ (0, record p { files = set p.files (index_of id) none })
  unfolding close get_semaphore_index get_child_index get_file_index
  close_file k i h = ground arith

-- The three places in which an id can stand for something.
data Place (id : ℕ) (p : Process) : Type 0 where
  in_sems :
      kind_of id ≡ sem
      → index_of id < n_sem
      → is_some (slot p.sems (index_of id)) ≡ true
      → Place id p
  in_children :
      kind_of id ≡ proc
      → index_of id < n_child
      → is_some (slot p.children (index_of id)) ≡ true
      → Place id p
  in_files :
      kind_of id ≡ fl
      → index_of id < n_file
      → is_some (slot p.files (index_of id)) ≡ true
      → Place id p

in_range : (table : Table) (i : ℕ) → is_some (slot table i) ≡ true → i < length table
in_range [] i h = absurd (ground arith)
in_range (x ∷ table) zero h = omega arith
in_range (x ∷ table) (suc i) h = omega (arith, in_range table i h)

place : (id : ℕ) (p : Process) → IsValid p → is_some (lookup id p) ≡ true → Place id p
unfolding lookup
place id p v h = elim (Bool-cases (kind_of id == fl)) [
  | inl e ↦
      let h' : is_some (slot p.files (index_of id)) ≡ true = ground arith in
      in_files (ground arith) (omega (arith, in_range p.files (index_of id) h')) h'
  | inr e ↦ elim (Bool-cases (kind_of id == proc)) [
    | inl f ↦
        let h' : is_some (slot p.children (index_of id)) ≡ true = ground arith in
        in_children (ground arith) (omega (arith, in_range p.children (index_of id) h')) h'
    | inr f ↦ elim (Bool-cases (kind_of id == sem)) [
      | inl g ↦
          let h' : is_some (slot p.sems (index_of id)) ≡ true = ground arith in
          in_sems (ground arith) (omega (arith, in_range p.sems (index_of id) h')) h'
      | inr g ↦ absurd (ground arith)
    ]
  ]
]

-- `close` of an id that stands for something returns 0 and takes away just that; of any other id it
-- returns -1 and changes nothing.
pub close_lem : (id : ℕ) (p : Process) → IsValid p → Closed id p (close id p)
close_lem id p v = elim (Option-cases (lookup id p)) [
  | inl h ↦ rw (close_unknown id p v h) (inr (h, refl, refl))
  | inr (r, h) ↦ let (e, u, v') = cleared (place id p v (rw h)) in inl (rw h, e, u, v')
]
  where
    cleared : Place id p → let (r, p') = close id p in (r ≡ 0) × Updated p id none p' × IsValid p'
    cleared (in_sems k i h) =
        let e : id_of sem (index_of id) ≡ id = omega arith in
        rw (close_sem id p k i h) (
          refl,
          rw e at (sems-Updated p none (index_of id) (omega (arith, v.sems_size)) (omega arith)),
          ground (arith, length-set p.sems (index_of id) none),
        )
    cleared (in_children k i h) =
        let e : id_of proc (index_of id) ≡ id = omega arith in
        rw (close_child id p k i h) (
          refl,
          rw e at (
              children-Updated p none (index_of id) (omega (arith, v.children_size)) (omega arith)),
          ground (arith, length-set p.children (index_of id) none),
        )
    cleared (in_files k i h) =
        let e : id_of fl (index_of id) ≡ id = omega arith in
        rw (close_file id p k i h) (
          refl,
          rw e at (files-Updated p none (index_of id) (omega (arith, v.files_size)) (omega arith)),
          ground (arith, length-set p.files (index_of id) none),
        )

-- Either way nothing is left at the id, and the tables keep their sizes.
pub close-Updated : (id : ℕ) (p : Process) → IsValid p → Updated p id none (close id p).1
close-Updated id p v = elim (close_lem id p v) [
  | inl (h, e, u, v') ↦ u
  | inr (h, e, same) ↦ λ j. rw same (ground (arith, h))
]

pub close-IsValid : (id : ℕ) (p : Process) → IsValid p → IsValid (close id p).1
close-IsValid id p v = elim (close_lem id p v) [
  | inl (h, e, u, v') ↦ v'
  | inr (h, e, same) ↦ rw same v
]
