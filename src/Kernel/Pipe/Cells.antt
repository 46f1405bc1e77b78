-- ===== src/Kernel/Pipe/Cells.antt =====
-- Runs of cells of a circular buffer of 1024 bytes, by positions that do not wrap around.
use os_shell.Common.{
  ℕ, ◌+◌, ◌-◌, ◌%◌, ◌≤◌, ◌<◌, ◌≡◌, refl, ap, ap₂, List, [], ◌∷◌, ◌++◌, zero, suc, length, get_or,
  set, get_or-set_self, get_or-set_ne, arith, ◌∙◌,
}

abbrev pub cell : List ℕ → ℕ → ℕ
cell buf p = get_or buf (p % 1024) 0

-- The `n` cells from position `p` on.
abbrev pub cells : List ℕ → ℕ → ℕ → List ℕ
cells buf p zero = []
cells buf p (suc n) = cell buf p ∷ cells buf (p + 1) n

module _ (buf : List ℕ) where
  pub length-cells : (n p : ℕ) → length (cells buf p n) ≡ n
  length-cells zero p = refl
  length-cells (suc n) p = ap suc (length-cells n (p + 1))

  -- Only the cell counts, not how often the position has gone round.
  pub cells_round : (n p q : ℕ) → p % 1024 ≡ q % 1024 → cells buf p n ≡ cells buf q n
  cells_round zero p q e = refl
  cells_round (suc n) p q e =
      ap₂ ◌∷◌ (ap (λ i. get_or buf i 0) e) (cells_round n (p + 1) (q + 1) (omega arith))

  pub cells_first :
      (n p q : ℕ)
      → 0 < n
      → q % 1024 ≡ (p + 1) % 1024
      → cells buf p n ≡ cell buf p ∷ cells buf q (n - 1)
  cells_first zero p q h e = absurd (omega arith)
  cells_first (suc n) p q h e =
      ap (λ l. cell buf p ∷ l)
        (let one : suc n - 1 ≡ n = omega arith in rw one (cells_round n (p + 1) q (omega arith)))

  pub cells_last : (n p : ℕ) → cells buf p (suc n) ≡ cells buf p n ++ cell buf (p + n) ∷ []
  cells_last zero p = ap (λ q. cell buf q ∷ []) (omega arith)
  cells_last (suc n) p =
      let e : p + 1 + n ≡ p + suc n = omega arith in
      ap (λ l. cell buf p ∷ l)
        (cells_last n (p + 1) ∙ ap (λ q. cells buf (p + 1) n ++ cell buf q ∷ []) e)

  -- A write behind a run, and less than a round on from its start, leaves the run alone.
  cells_apart :
      (n p q x : ℕ) → p + n ≤ q → q < p + 1024 → cells (set buf (q % 1024) x) p n ≡ cells buf p n
  cells_apart zero p q x le lt = refl
  cells_apart (suc n) p q x le lt =
      ap₂ ◌∷◌ (get_or-set_ne buf (q % 1024) (p % 1024) x 0 (λ e. omega arith))
        (cells_apart n (p + 1) q x (omega arith) (omega arith))

-- So a write into the cell behind a run makes the run longer.
pub cells-set :
    (buf : List ℕ) (n p i x : ℕ)
    → length buf ≡ 1024
    → n < 1024
    → i ≡ (p + n) % 1024
    → cells (set buf i x) p (suc n) ≡ cells buf p n ++ x ∷ []
cells-set buf n p i x size short e =
    ap (λ j. cells (set buf j x) p (suc n)) e
    ∙ cells_last (set buf ((p + n) % 1024) x) n p
    ∙ ap₂ (λ l b. l ++ b ∷ []) (cells_apart buf n p (p + n) x (omega arith) (omega arith))
        (get_or-set_self buf ((p + n) % 1024) x 0 (omega arith))
