-- ===== src/Kernel/Vmm/Walk.antt =====
-- What a page directory makes of an address.
use os_shell.Common.{
  ℕ, ◌+◌, ◌%◌, ◌^◌, ◌<◌, ◌≡◌, ◌≢◌, inl, inr, refl, true, Bool, Option, none, some, List, [], ◌∷◌,
  arith, ==_ne, if◌then◌else◌, All, Bool-cases, ap, sym, ◌∙◌, subst,
}
use os_shell.Kernel.PhysMem
use os_shell.Kernel.PhysMem.{Memory, offset, in_frame, store}
use os_shell.Kernel.PhysMem.Valid.{AreFree, Chain-same}
use os_shell.Kernel.Vmm.{entry, frame_of, is_present, pd_index, pt_index, write}

-- The entry that the processor ends at for an address, 0 where there is no table.
abbrev pub pte_at : (ℕ → ℕ) → ℕ → ℕ → ℕ
pte_at words pd va =
    let pde = words (entry pd (pd_index va)) in
    if is_present pde then words (entry (frame_of pde) (pt_index va)) else 0

-- The physical address of an address.
abbrev pub translate : (ℕ → ℕ) → ℕ → ℕ → Option ℕ
translate words pd va =
    if is_present (pte_at words pd va)
    then some (frame_of (pte_at words pd va) + va % 4096)
    else none

-- A page directory with its tables: frames that are owned, each for itself.
pub record IsSpace (owned : ℕ → Bool) (words : ℕ → ℕ) (pd : ℕ) : Type 0 where
  pub root : owned pd ≡ true
  pub at : offset pd ≡ 0
  pub tables :
      (i : ℕ)
      → i < 1024
      → is_present (words (entry pd i)) ≡ true
      → (owned (frame_of (words (entry pd i))) ≡ true) × (frame_of (words (entry pd i)) ≢ pd)
  pub apart :
      (i j : ℕ)
      → i < 1024
      → j < 1024
      → is_present (words (entry pd i)) ≡ true
      → is_present (words (entry pd j)) ≡ true
      → frame_of (words (entry pd i)) ≡ frame_of (words (entry pd j))
      → i ≡ j

-- Entries of two tables are two words.
pub entry_ne :
    (p q i j : ℕ)
    → offset p ≡ 0
    → offset q ≡ 0
    → p ≢ q
    → i < 1024
    → j < 1024
    → entry p i ≢ entry q j
entry_ne p q i j hp hq ne hi hj e = ne (omega arith)

pub entry-in_frame : (p i : ℕ) → i < 1024 → in_frame p (entry p i) ≡ true
entry-in_frame p i h = ground arith

written_free :
    (start t a v : ℕ) (owned : ℕ → Bool) (m : Memory) (xs : List ℕ)
    → owned t ≡ true
    → offset t ≡ 0
    → in_frame t a ≡ true
    → AreFree start owned m xs
    → All (λ x. store a v m.words x ≡ m.words x) xs
written_free start t a v owned m [] o at inside h = tt
written_free start t a v owned m (x ∷ xs) o at inside h =
    let ne : x ≢ a = λ e. let same : x ≡ t = ground (arith, h.0.0.0) in ground (arith, h.0.1) in
    (rw (==_ne x a ne) refl, written_free start t a v owned m xs o at inside h.1)

-- What is written into a frame that is owned touches no free frame.
pub write-IsValid :
    (start t i v : ℕ) (owned : ℕ → Bool) (m : Memory) (free : List ℕ)
    → PhysMem.Valid.IsValid start owned m free
    → owned t ≡ true
    → i < 1024
    → PhysMem.Valid.IsValid start owned (write (entry t i) v m) free
write-IsValid start t i v owned m free ok o small =
    let at : offset t ≡ 0 = (ok.owned_frames t o).0 in
    let inside = entry-in_frame t i small in
    record {
      chain =
          Chain-same m.words (store (entry t i) v m.words) m.first_free free
            (written_free start t (entry t i) v owned m free o at inside ok.free_frames) ok.chain;
      free_frames = ok.free_frames;
      owned_frames = ok.owned_frames;
      above_null = ok.above_null;
      start_in = ok.start_in;
      start_at = ok.start_at;
      avail_at = ok.avail_at;
      limit_at = ok.limit_at;
      avail_in = ok.avail_in;
      limit_in = ok.limit_in;
    }

-- The directory is the same, and its tables still are owned.
module _ (owned owned' : ℕ → Bool) (w w' : ℕ → ℕ) (pd : ℕ) (space : IsSpace owned w pd)
    (same : (i : ℕ) → i < 1024 → w' (entry pd i) ≡ w (entry pd i)) where
  still_present :
      (i : ℕ) → i < 1024 → is_present (w' (entry pd i)) ≡ true → is_present (w (entry pd i)) ≡ true
  still_present i h p = subst (λ x. is_present x ≡ true) (same i h) p

  pub IsSpace-same :
      owned' pd ≡ true
      → ((i : ℕ)
          → i < 1024
          → is_present (w (entry pd i)) ≡ true
          → owned' (frame_of (w (entry pd i))) ≡ true)
      → IsSpace owned' w' pd
  IsSpace-same root mine = record {
    root = root;
    at = space.at;
    tables = λ i h p.
        subst (λ x. (owned' (frame_of x) ≡ true) × (frame_of x ≢ pd)) (sym (same i h))
          (mine i h (still_present i h p), (space.tables i h (still_present i h p)).1);
    apart = λ i j hi hj pi pj e.
        space.apart i j hi hj (still_present i hi pi) (still_present j hj pj)
          (ap frame_of (sym (same i hi)) ∙ e ∙ ap frame_of (same j hj));
  }

  pub pte_at-same :
      ((i j : ℕ)
        → i < 1024
        → j < 1024
        → is_present (w (entry pd i)) ≡ true
        → w' (entry (frame_of (w (entry pd i))) j) ≡ w (entry (frame_of (w (entry pd i))) j))
      → (vb : ℕ) → vb < 2 ^ 32
      → pte_at w' pd vb ≡ pte_at w pd vb
  pte_at-same tables vb h =
      let j = pd_index vb in
      let small : pd_index vb < 1024 = omega arith in
      rw (same j small) (elim (Bool-cases (is_present (w (entry pd j)))) [
        | inr none_there ↦ rw none_there refl
        | inl there ↦ rw there (tables j (pt_index vb) small (omega arith) there)
      ])
