-- ===== src/User/Grep/Fgets.antt =====
-- The lines that fgets reads.
use os_shell.Common.{
  ℕ, zero, suc, ◌<◌, ◌≤◌, ◌≡◌, refl, ◌≢◌, ◌⊎◌, inl, inr, Bool, true, false, List, [], ◌∷◌, ◌++◌,
  arith, ap, length, ◌==◌, Bool-cases,
}
use os_shell.User.Grep.{newline, fgets_loop}

-- A newline stands at the end of a line at most.
abbrev pub IsOneLine : List ℕ → Type 0
IsOneLine [] = Unit
IsOneLine (c ∷ []) = Unit
IsOneLine (c ∷ d ∷ cs) = (c ≢ newline) × IsOneLine (d ∷ cs)

abbrev pub ends_line : List ℕ → Bool
ends_line [] = false
ends_line (c ∷ []) = c == newline
ends_line (c ∷ d ∷ cs) = ends_line (d ∷ cs)

-- The bytes that are read with room for `most`, out of an input that leaves `rest`: up to the first
-- newline, or as many as there is room for, or all.
pub record IsLine (most : ℕ) (input line rest : List ℕ) : Type 0 where
  pub split : input ≡ line ++ rest
  pub short : length line ≤ most
  pub one : IsOneLine line
  pub stops : (ends_line line ≡ true) ⊎ (length line ≡ most) ⊎ (rest ≡ [])
  pub moves : (0 < length line) ⊎ (most ≡ 0) ⊎ (input ≡ [])

IsOneLine-cons : (c : ℕ) (cs : List ℕ) → c ≢ newline → IsOneLine cs → IsOneLine (c ∷ cs)
IsOneLine-cons c [] ne h = tt
IsOneLine-cons c (d ∷ cs) ne h = (ne, h)

ends_line-cons : (c : ℕ) (cs : List ℕ) → ends_line cs ≡ true → ends_line (c ∷ cs) ≡ true
ends_line-cons c [] h = absurd (ground arith)
ends_line-cons c (d ∷ cs) h = h

-- The loop of `fgets` stores a line, of which at most the last byte is a newline,
-- and leaves the rest of the input. It stops behind a newline, where the room is used up, or at the
-- end of the input, and stores nothing only if there is no room or no input.
pub fgets_loop_lem :
    (most : ℕ) (input : List ℕ)
    → IsLine most input (fgets_loop most input).0 (fgets_loop most input).1
unfolding fgets_loop
fgets_loop_lem zero input = record {
  split = refl;
  short = omega arith;
  one = tt;
  stops = inr (inl refl);
  moves = inr (inl refl);
}
fgets_loop_lem (suc most) [] = record {
  split = refl;
  short = omega arith;
  one = tt;
  stops = inr (inr refl);
  moves = inr (inr refl);
}
fgets_loop_lem (suc most) (c ∷ input) = elim (Bool-cases (c == newline)) [
  | inl e ↦ rw e (record {
    split = refl;
    short = omega arith;
    one = tt;
    stops = inl e;
    moves = inl (omega arith);
  })
  | inr e ↦
      let ih = fgets_loop_lem most input in
      rw e (record {
        split = ap (λ l. c ∷ l) ih.split;
        short = omega (arith, ih.short);
        one = IsOneLine-cons c (fgets_loop most input).0 (λ z. ground arith) ih.one;
        stops = elim ih.stops [
          | inl x ↦ inl (ends_line-cons c (fgets_loop most input).0 x)
          | inr (inl x) ↦ inr (inl (ap suc x))
          | inr (inr x) ↦ inr (inr x)
        ];
        moves = inl (omega arith);
      })
]
