-- ===== src/Kernel/Process/Files.antt =====
-- File descriptors: `getFile`, `setFile` and `dup2`.
use os_shell.Common.{
  ℕ, ◌<◌, ◌≤◌, ◌≡◌, refl, ◌≢◌, ◌⊎◌, inl, inr, true, false, Option, none, some, arith, ◌==◌,
  if◌then◌else◌, is_some, set, ==_ne, ap, sym, ◌∙◌, length-set, Bool-cases, not, ◌||◌, ltb,
}
use os_shell.Kernel.Process.{
  Process, slot, n_file, minus_one, id_of, fl, free_slot, get_file_index, get_file, set_file, close,
  dup2, bad_fd,
}
use os_shell.Kernel.Process.Close.{close-Updated, close-IsValid}
use os_shell.Kernel.Process.Tables.{
  IsValid, lookup, Updated, slot_out, files-Updated, IsLowest, free_slot_lem,
}

-- A descriptor below NFILE is its own index; no other number is a descriptor.
pub get_file_lem :
    (fd : ℕ) (p : Process)
    → IsValid p
    → get_file fd p ≡ (if ltb fd n_file then lookup fd p else none)
unfolding get_file get_file_index lookup
get_file_lem fd p v = ground (arith, slot_out p.files)

lookup-file : (fd : ℕ) (p : Process) → fd < n_file → lookup fd p ≡ slot p.files fd
unfolding lookup
lookup-file fd p h = ground arith

pub get_file-slot : (fd : ℕ) (p : Process) → fd < n_file → get_file fd p ≡ slot p.files fd
unfolding get_file get_file_index
get_file-slot fd p h = ground arith

pub get_file_out : (fd : ℕ) (p : Process) → n_file ≤ fd → get_file fd p ≡ none
unfolding get_file get_file_index
get_file_out fd p h = ground arith

-- What `setFile` does.
abbrev pub Installed : ℕ → Process → ℕ × Process → Type 0
Installed file p (r, p') =
    ((r ≡ minus_one) × (p' ≡ p) × IsLowest p.files none)
    ⊎ ((r < n_file) × IsLowest p.files (some r) × Updated p r (some file) p' × IsValid p')

-- `setFile` returns -1 and changes nothing if all slots are taken. Otherwise it returns the lowest
-- free descriptor, which then stands for the file, and changes nothing else.
pub set_file_lem : (file : ℕ) (p : Process) → IsValid p → Installed file p (set_file file p)
unfolding set_file
set_file_lem file p v = elim (free_slot_lem 0 p.files) [
  | inl (e, all) ↦ rw (e, set_file) (inl (refl, refl, all))
  | inr (k, e, low) ↦
      let e' : free_slot 0 p.files ≡ some k = e ∙ ap some (omega arith) in
      rw (e', set_file)
        (inr (
          omega arith,
          low,
          (λ j.
              files-Updated p (some file) k low.0 (omega arith) j
              ∙ ap (λ i. if j == i then some file else lookup j p) (omega arith)),
          ground (arith, length-set p.files k (some file)),
        ))
]

-- What `dup2` does.
abbrev pub Duplicated : ℕ → ℕ → Process → ℕ × Process → Type 0
Duplicated old new p (r, p') =
    ((old ≡ new) × (r ≡ new) × (p' ≡ p))
    ⊎ ((old ≢ new) × ((get_file old p ≡ none) ⊎ (n_file ≤ new)) × (r ≡ minus_one) × (p' ≡ p))
    ⊎ ((old ≢ new)
        × (is_some (get_file old p) ≡ true)
        × (new < n_file)
        × (r ≡ new)
        × Updated p new (get_file old p) p'
        × IsValid p')

-- The last branch, where both descriptors are good: the new one is closed and then set.
dup2_good :
    (old new : ℕ) (p : Process)
    → IsValid p
    → old ≢ new
    → is_some (get_file old p) ≡ true
    → old < n_file
    → new < n_file
    → let q = record (close new p).1 {
      files = set (close new p).1.files new (slot (close new p).1.files old);
    } in
      Updated p new (get_file old p) q × IsValid q
dup2_good old new p v ne h o n =
    (λ j. ground (arith, written j, u j, same), ground (arith, v', length-set q.files new source))
  where
    q : Process
    q = (close new p).1

    u : Updated p new none q
    u = close-Updated new p v

    v' : IsValid q
    v' = close-IsValid new p v

    source : Option ℕ
    source = slot q.files old

    same : source ≡ get_file old p
    same =
        sym (lookup-file old q o)
        ∙ u old
        ∙ (rw (==_ne old new ne) (lookup-file old p o))
        ∙ sym (get_file-slot old p o)

    written : Updated q (id_of fl new) source (record q { files = set q.files new source })
    written = files-Updated q source new (omega (arith, v'.files_size)) (omega arith)

dup2_fine :
    (old new : ℕ) (p : Process)
    → IsValid p
    → (old == new) ≡ false
    → (bad_fd old || not (is_some (slot p.files old))) ≡ false
    → bad_fd new ≡ false
    → Duplicated old new p (dup2 old new p)
unfolding dup2
dup2_fine old new p v ne good fine =
    let apart : old ≢ new = ground arith in
    let open_old : is_some (get_file old p) ≡ true = ground (arith, get_file-slot old p) in
    let inside : new < n_file = ground arith in
    let (u, v') = dup2_good old new p v apart open_old (ground arith) inside in
    rw (ne, good, fine, dup2) (inr (inr (apart, open_old, inside, refl, u, v')))

-- `dup2` of a descriptor to itself does nothing, even where it is not open. Otherwise it returns -1
-- and changes nothing if the old descriptor is not open or the new one is out of range, and else
-- makes the new one stand for what the old one does, whatever it stood for, and changes nothing else.
pub dup2_lem : (old new : ℕ) (p : Process) → IsValid p → Duplicated old new p (dup2 old new p)
unfolding dup2
dup2_lem old new p v = elim (Bool-cases (old == new)) [
  | inl e ↦ rw (e, dup2) (inl (ground arith, refl, refl))
  | inr ne ↦ elim (Bool-cases (bad_fd old || not (is_some (slot p.files old)))) [
    | inl bad ↦
        rw (ne, bad, dup2)
          (inr (
            inl (
              ground arith,
              inl (ground (arith, get_file_out old p, get_file-slot old p)),
              refl,
              refl,
            )))
    | inr good ↦ elim (Bool-cases (bad_fd new)) [
      | inl bad ↦
          rw (ne, good, bad, dup2) (inr (inl (ground arith, inr (ground arith), refl, refl)))
      | inr fine ↦ dup2_fine old new p v ne good fine
    ]
  ]
]
