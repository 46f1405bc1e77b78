-- ===== src/Kernel/Process/Tables.antt =====
-- The three tables as one map from ids to references.
use os_shell.Common.{
  ℕ, zero, suc, ◌+◌, ◌^◌, ◌<◌, ◌≤◌, ◌≡◌, refl, ◌⊎◌, inl, inr, true, Option, none, some, [], ◌∷◌,
  arith, ◌==◌, if◌then◌else◌, is_some, length, set, get_or-set_self, get_or-set_ne, ==_refl, ap,
  ◌∙◌, Bool-cases, ==_iff,
}
use os_shell.Kernel.Process.{
  Process, Table, slot, n_sem, n_child, n_file, kind_of, index_of, id_of, fl, proc, sem, free_slot,
}

-- Each table has as many slots as the source gives it.
pub record IsValid (p : Process) : Type 0 where
  pub files_size : length p.files ≡ n_file
  pub sems_size : length p.sems ≡ n_sem
  pub children_size : length p.children ≡ n_child

abbrev pub table_of : ℕ → Process → Table
table_of kind p =
    if kind == fl
    then p.files
    else if kind == proc
    then p.children
    else if kind == sem
    then p.sems
    else []

-- What an id stands for in a process, if anything.
unfoldable pub lookup : ℕ → Process → Option ℕ
lookup id p = slot (table_of (kind_of id) p) (index_of id)

-- `p'` is `p` but for what `id` stands for.
abbrev pub Updated : Process → ℕ → Option ℕ → Process → Type 0
Updated p id v p' = (j : ℕ) → lookup j p' ≡ (if j == id then v else lookup j p)

pub slot-set :
    (table : Table) (i j : ℕ) (v : Option ℕ)
    → i < length table
    → slot (set table i v) j ≡ (if j == i then v else slot table j)
slot-set table i j v h = elim (Bool-cases (j == i)) [
  | inl e ↦ rw ((==_iff j i).0 e, ==_refl i, get_or-set_self table i v none h)
  | inr ne ↦ rw ne (get_or-set_ne table i j v none (λ e. ground arith))
]

pub slot_out : (table : Table) (i : ℕ) → length table ≤ i → slot table i ≡ none
slot_out [] i h = refl
slot_out (x ∷ xs) zero h = absurd (omega arith)
slot_out (x ∷ xs) (suc i) h = slot_out xs i (omega arith)

pub kind-id_of : (kind index : ℕ) → index < 2 ^ 28 → kind_of (id_of kind index) ≡ kind
kind-id_of kind index h = omega arith

pub index-id_of : (kind index : ℕ) → index < 2 ^ 28 → index_of (id_of kind index) ≡ index
index-id_of kind index h = omega arith

module _ (p : Process) (v : Option ℕ) (i : ℕ) where
  pub files-Updated :
      i < length p.files
      → i < 2 ^ 28
      → Updated p (id_of fl i) v (record p { files = set p.files i v })
  unfolding lookup
  files-Updated h small j = ground (arith, slot-set p.files i (index_of j) v h)

  pub sems-Updated :
      i < length p.sems
      → i < 2 ^ 28
      → Updated p (id_of sem i) v (record p { sems = set p.sems i v })
  unfolding lookup
  sems-Updated h small j = ground (arith, slot-set p.sems i (index_of j) v h)

  pub children-Updated :
      i < length p.children
      → i < 2 ^ 28
      → Updated p (id_of proc i) v (record p { children = set p.children i v })
  unfolding lookup
  children-Updated h small j = ground (arith, slot-set p.children i (index_of j) v h)

-- What the search for a slot may answer: the lowest slot that is null, or that there is none.
abbrev pub IsLowest : Table → Option ℕ → Type 0
IsLowest table none = (j : ℕ) → j < length table → is_some (slot table j) ≡ true
IsLowest table (some k) =
    (k < length table) × (slot table k ≡ none) × ((j : ℕ) → j < k → is_some (slot table j) ≡ true)

taken_all : (r : ℕ) (table : Table) → IsLowest table none → IsLowest (some r ∷ table) none
taken_all r table all zero h = refl
taken_all r table all (suc j) h = all j (omega arith)

taken_below :
    (r : ℕ) (table : Table) (k : ℕ)
    → ((j : ℕ) → j < k → is_some (slot table j) ≡ true)
    → (j : ℕ) → j < suc k
    → is_some (slot (some r ∷ table) j) ≡ true
taken_below r table k below zero h = refl
taken_below r table k below (suc j) h = below j (omega arith)

pub free_slot_lem :
    (i : ℕ) (table : Table)
    → ((free_slot i table ≡ none) × IsLowest table none)
      ⊎ ((k : ℕ) × (free_slot i table ≡ some (i + k)) × IsLowest table (some k))
unfolding free_slot
free_slot_lem i [] = inl (refl, λ j h. absurd (omega arith))
free_slot_lem i (none ∷ table) =
    inr (0, ap some (omega arith), (omega arith, refl, λ j h. absurd (omega arith)))
free_slot_lem i (some r ∷ table) = elim (free_slot_lem (i + 1) table) [
  | inl (e, all) ↦ inl (e, taken_all r table all)
  | inr (k, e, (inside, free, below)) ↦
      inr (suc k, e ∙ ap some (omega arith), (omega arith, free, taken_below r table k below))
]
