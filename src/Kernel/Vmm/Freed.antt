-- ===== src/Kernel/Vmm/Freed.antt =====
-- What giving a frame back leaves of an address space.
use os_shell.Common.{
  ℕ, ◌/◌, ◌^◌, ◌<◌, ◌≡◌, ◌≢◌, refl, true, false, Bool, Option, none, some, List, arith, ◌==◌, ==_ne,
  if◌then◌else◌, sym, ◌∙◌,
}
use os_shell.Kernel.PhysMem.{Memory, offset}
use os_shell.Kernel.PhysMem.Valid.{disown}
use os_shell.Kernel.Vmm.{entry, frame_of, is_present}
use os_shell.Kernel.Vmm.Maps.{IsMapped}
use os_shell.Kernel.Vmm.Walk.{IsSpace, IsSpace-same, pte_at-same, pte_at, translate}

-- A frame that is owned, and neither the directory nor one of its tables.
abbrev pub IsPrivate : (ℕ → Bool) → (ℕ → ℕ) → ℕ → ℕ → Type 0
IsPrivate owned words pd p =
    (owned p ≡ true)
    × (p ≢ pd)
    × ((i : ℕ)
        → i < 1024
        → is_present (words (entry pd i)) ≡ true
        → frame_of (words (entry pd i)) ≢ p)

-- Such a frame is given back.
module _ (owned : ℕ → Bool) (w w' : ℕ → ℕ) (pd p v : ℕ) (space : IsSpace owned w pd)
    (private : IsPrivate owned w pd p) (at : offset p ≡ 0)
    (same : (a : ℕ) → w' a ≡ (if a == p then v else w a)) where
  kept : (t i : ℕ) → offset t ≡ 0 → t ≢ p → i < 1024 → w' (entry t i) ≡ w (entry t i)
  kept t i ht ne h = same (entry t i) ∙ rw (==_ne (entry t i) p (λ e. ne (omega arith))) refl

  pub root_kept : (i : ℕ) → i < 1024 → w' (entry pd i) ≡ w (entry pd i)
  root_kept i h = kept pd i space.at (λ e. private.1 (sym e)) h

  pub freed-IsSpace : IsSpace (disown owned p) w' pd
  freed-IsSpace =
      IsSpace-same owned (disown owned p) w w' pd space root_kept
        (rw (==_ne pd p (λ e. private.1 (sym e))) space.root)
        (λ i h there.
          rw (==_ne (frame_of (w (entry pd i))) p (private.2 i h there)) (space.tables i h there).0)

  pub freed-pte_at : (vb : ℕ) → vb < 2 ^ 32 → pte_at w' pd vb ≡ pte_at w pd vb
  freed-pte_at vb h =
      pte_at-same owned owned w w' pd space root_kept
        (λ i j hi hj there.
          kept (frame_of (w (entry pd i))) j (omega arith) (private.2 i hi there) hj)
        vb h

abbrev pub Unmapped : ℕ → (ℕ → Bool) → Memory → List ℕ → ℕ → ℕ → Option Memory → Type 0
Unmapped start owned m free pd va result =
    (m' : Memory) × (owned' : ℕ → Bool) × (free' : List ℕ) × (result ≡ some m')
    × IsMapped start owned' m' free' pd
    × (is_present (pte_at m.words pd va) ≡ true → owned' (frame_of (pte_at m.words pd va)) ≡ false)
    × ((vb : ℕ) → vb / 4096 ≡ va / 4096 → translate m'.words pd vb ≡ none)
    × ((vb : ℕ)
        → vb < 2 ^ 32
        → vb / 4096 ≢ va / 4096
        → translate m'.words pd vb ≡ translate m.words pd vb)

-- The same with what it does to the entries and to the frames.
pub record Unmaps (start : ℕ) (owned : ℕ → Bool) (m : Memory) (pd va : ℕ) (m' : Memory)
    (owned' : ℕ → Bool) (free' : List ℕ) : Type 0 where
  pub mapped : IsMapped start owned' m' free' pd
  pub freed :
      is_present (pte_at m.words pd va) ≡ true → owned' (frame_of (pte_at m.words pd va)) ≡ false
  pub gone : is_present (pte_at m'.words pd va) ≡ false
  pub others :
      (vb : ℕ) → vb < 2 ^ 32 → vb / 4096 ≢ va / 4096 → pte_at m'.words pd vb ≡ pte_at m.words pd vb
  pub roots : (i : ℕ) → i < 1024 → m'.words (entry pd i) ≡ m.words (entry pd i)
  pub keeps :
      (a : ℕ)
      → owned a ≡ true
      → (is_present (pte_at m.words pd va) ≡ true → a ≢ frame_of (pte_at m.words pd va))
      → owned' a ≡ true
  pub less : (a : ℕ) → owned a ≡ false → owned' a ≡ false

abbrev pub UnmapsTo : ℕ → (ℕ → Bool) → Memory → ℕ → ℕ → Option Memory → Type 0
UnmapsTo start owned m pd va result =
    (m' : Memory) × (owned' : ℕ → Bool) × (free' : List ℕ) × (result ≡ some m')
    × Unmaps start owned m pd va m' owned' free'
