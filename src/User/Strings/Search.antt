-- ===== src/User/Strings/Search.antt =====
-- `strstr` finds the first occurrence of the needle.
use os_shell.Common.{
  ℕ, zero, suc, ◌+◌, ◌<◌, ◌≡◌, refl, inl, inr, Bool, true, false, Option, none, some, List, [], ◌∷◌,
  ◌∙◌, ◌++◌, ap, arith, drop, Bool-cases, ◌==◌, ==_ne,
}
use os_shell.Common.Text.{IsText}
use os_shell.User.Strings.{match_here, strstr_from, strstr}

-- The needle stands in the text from index `i` on.
abbrev pub OccursAt : List ℕ → List ℕ → ℕ → Type 0
OccursAt s t i = (rest : List ℕ) × (drop i s ≡ t ++ rest)

-- What a search of a text may answer: an index with no occurrence before it, or that there is none.
abbrev pub IsFirst : List ℕ → List ℕ → Option ℕ → Type 0
IsFirst s t none = (j : ℕ) → ¬ OccursAt s t j
IsFirst s t (some i) = OccursAt s t i × ((j : ℕ) → j < i → ¬ OccursAt s t j)

-- The inner loop decides whether the needle is a prefix.
starts : List ℕ → List ℕ → Bool
starts s [] = true
starts [] (c ∷ t) = false
starts (d ∷ s) (c ∷ t) = elim (d == c) [ true ↦ starts s t | false ↦ false ]

match_here_lem :
    (s t r q : List ℕ)
    → IsText s
    → IsText t
    → match_here (s ++ 0 ∷ r) (t ++ 0 ∷ q) ≡ some (starts s t)
unfolding match_here starts
match_here_lem [] [] r q hs ht = refl
match_here_lem [] (c ∷ t) r q hs ht = ground arith
match_here_lem (d ∷ s) [] r q hs ht = refl
match_here_lem (d ∷ s) (c ∷ t) r q hs ht = ground (arith, match_here_lem s t r q hs.1 ht.1)

starts-OccursAt : (s t : List ℕ) → starts s t ≡ true → OccursAt s t 0
unfolding starts
starts-OccursAt s [] h = (s, refl)
starts-OccursAt [] (c ∷ t) h = absurd (false-elim h)
  where
    false-elim : false ≡ true → ⊥
    false-elim e = cc
starts-OccursAt (d ∷ s) (c ∷ t) h = elim (Bool-cases (d == c)) [
  | inl e ↦ let (rest, p) = starts-OccursAt s t (ground arith) in (rest, ground arith)
  | inr e ↦ absurd (ground arith)
]

not-OccursAt : (s t : List ℕ) → starts s t ≡ false → ¬ OccursAt s t 0
unfolding starts
not-OccursAt s [] h o = cc
not-OccursAt [] (c ∷ t) h (rest, p) = cc
not-OccursAt (d ∷ s) (c ∷ t) h (rest, p) = not-OccursAt s t (ground arith) (rest, ground arith)

shift : ℕ → Option ℕ → Option ℕ
shift i none = none
shift i (some k) = some (i + k)

shift_zero : (o : Option ℕ) → shift 0 o ≡ o
unfolding shift
shift_zero none = refl
shift_zero (some k) = ap some (omega arith)

shift-shift : (i : ℕ) (o : Option ℕ) → shift (i + 1) o ≡ shift i (shift 1 o)
unfolding shift
shift-shift i none = refl
shift-shift i (some k) = ap some (omega arith)

-- One step on from an index: what holds of the rest of the text holds of the whole.
IsFirst-cons :
    (d : ℕ) (s t : List ℕ) (o : Option ℕ)
    → ¬ OccursAt (d ∷ s) t 0
    → IsFirst s t o
    → IsFirst (d ∷ s) t (shift 1 o)
unfolding shift
IsFirst-cons d s t none start after = all
  where
    all : (j : ℕ) → ¬ OccursAt (d ∷ s) t j
    all zero = start
    all (suc j) = after j
IsFirst-cons d s t (some k) start (found, before) = rw one_add (found, earlier)
  where
    one_add : 1 + k ≡ suc k
    one_add = omega arith

    earlier : (j : ℕ) → j < suc k → ¬ OccursAt (d ∷ s) t j
    earlier zero h = start
    earlier (suc j) h = before j (omega arith)

abbrev Finds : ℕ → List ℕ → List ℕ → Option (Option ℕ) → Type 0
Finds i s t found = (o : Option ℕ) × (found ≡ some (shift i o)) × IsFirst s t o

IsFirst-nil : (c : ℕ) (t : List ℕ) (j : ℕ) → ¬ OccursAt [] (c ∷ t) j
IsFirst-nil c t zero (rest, p) = cc
IsFirst-nil c t (suc j) (rest, p) = cc

strstr_from_lem :
    (i : ℕ) (s t r q : List ℕ) (c : ℕ)
    → IsText s
    → IsText (c ∷ t)
    → Finds i s (c ∷ t) (strstr_from i (s ++ 0 ∷ r) (c ∷ t ++ 0 ∷ q))
unfolding strstr_from shift
strstr_from_lem i [] t r q c hs ht = (none, refl, IsFirst-nil c t)
strstr_from_lem i (d ∷ s) t r q c hs ht =
    let front = match_here_lem (d ∷ s) (c ∷ t) r q hs ht in
    elim (Bool-cases (starts (d ∷ s) (c ∷ t))) [
      | inl e ↦ (
        some 0,
        rw (==_ne d 0 hs.0, front, e) (ap (λ k. some (some k)) (omega arith)),
        (starts-OccursAt (d ∷ s) (c ∷ t) e, λ j h. absurd (omega arith)),
      )
      | inr e ↦
          let (o, p, first) = strstr_from_lem (i + 1) s t r q c hs.1 ht in
          (
            shift 1 o,
            rw (==_ne d 0 hs.0, front, e) (p ∙ ap some (shift-shift i o)),
            IsFirst-cons d s (c ∷ t) o (not-OccursAt (d ∷ s) (c ∷ t) e) first,
          )
    ]

-- On terminated strings `strstr` reads within bounds, ends, and answers the index of the first
-- occurrence of the needle, or null exactly when there is no occurrence.
pub strstr_lem :
    (s t r q : List ℕ)
    → IsText s
    → IsText t
    → (o : Option ℕ) × (strstr (s ++ 0 ∷ r) (t ++ 0 ∷ q) ≡ some o) × IsFirst s t o
unfolding strstr
strstr_lem s [] r q hs ht = (some 0, refl, ((s, refl), λ j h. absurd (omega arith)))
strstr_lem s (c ∷ t) r q hs ht =
    let (o, p, first) = strstr_from_lem 0 s t r q c hs ht in
    (o, rw (==_ne c 0 ht.0) (p ∙ ap some (shift_zero o)), first)
