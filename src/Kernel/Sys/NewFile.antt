-- ===== src/Kernel/Sys/NewFile.antt =====
-- `setFile` of a new file object.
use os_shell.Common.{
  ℕ, ◌<◌, ◌≡◌, ◌≢◌, ◌⊎◌, inl, inr, none, some, arith, ap, sym, ◌∙◌, length, get_elem?,
  get_elem?-length, is_some, true, false, if◌then◌else◌, ==_refl, ==_ne, ltb, lt→ltb, [],
}
use os_shell.Kernel.File.{File}
use os_shell.Kernel.Process.{get_file, minus_one, set_file, n_file, is_negative}
use os_shell.Kernel.Process.Tables.{IsValid, lookup}
use os_shell.Kernel.Process.Files.{set_file_lem, get_file_lem, get_file-slot}
use os_shell.Kernel.Sys.{System, new_file}

-- The file is open under a descriptor that was free, and nothing else changes.
pub record Opened (f : File) (s : System) (r : ℕ) (s' : System) : Type 0 where
  pub small : r < n_file
  pub positive : is_negative r ≡ false
  pub free : get_file r s.process ≡ none
  pub ref : get_file r s'.process ≡ some (length s.files)
  pub file : get_elem? s'.files (length s.files) ≡ some f
  pub same : (id : ℕ) → id ≢ r → lookup id s'.process ≡ lookup id s.process
  pub valid : IsValid s'.process

-- All descriptors are in use.
abbrev pub IsFull : System → Type 0
IsFull s = (fd : ℕ) → fd < n_file → is_some (get_file fd s.process) ≡ true

pub new_file_lem :
    (f : File) (s : System)
    → IsValid s.process
    → (((new_file f s).0 ≡ minus_one) × IsFull s × ((new_file f s).1.process ≡ s.process))
      ⊎ Opened f s (new_file f s).0 (new_file f s).1
unfolding new_file
new_file_lem f s valid = elim (set_file_lem (length s.files) s.process valid) [
  | inl (e, same, full) ↦ inl (
    e,
    (λ fd h. rw (get_file-slot fd s.process h) (full fd (omega (arith, valid.files_size)))),
    same,
  )
  | inr (small, low, u, v) ↦
      let r = (set_file (length s.files) s.process).0 in
      let p = (set_file (length s.files) s.process).1 in
      inr (record {
        small = small;
        positive = ground arith;
        free = get_file-slot r s.process small ∙ low.1;
        ref = get_file_lem r p v ∙ rw (lt→ltb _ _ small) (u r ∙ rw (==_refl r));
        file = get_elem?-length s.files f [];
        same = λ id ne. u id ∙ rw (==_ne id r ne);
        valid = v;
      })
]

-- The other descriptors stand for what they stood for.
pub Opened-get_file :
    (f : File) (s : System) (r : ℕ) (s' : System)
    → IsValid s.process
    → Opened f s r s'
    → (fd : ℕ) → fd ≢ r
    → get_file fd s'.process ≡ get_file fd s.process
Opened-get_file f s r s' valid o fd ne =
    get_file_lem fd s'.process o.valid
    ∙ ap (λ x. if ltb fd n_file then x else none) (o.same fd ne)
    ∙ sym (get_file_lem fd s.process valid)
