-- ===== src/Kernel/Libk.antt =====
-- kernel/libk.cc: strings and digits in the kernel.
-- A `char *` is the list of the bytes from the pointer to the end of its object; a read past the
-- end is a fault, `none`.
use os_shell.Common.{
  ◌∙◌, ℕ, ◌+◌, ◌≡◌, ◌≢◌, refl, Bool, true, false, not, ◌&&◌, Option, none, some, List, [], ◌∷◌,
  ◌++◌, ◌==◌, leb, if◌then◌else◌, arith, ap, length, ap₂, Bool-cases, inl, inr, ==_iff, ==_ne,
}
use os_shell.Common.Text.{IsText}

-- `while (*str++ != 0) n++;`
strlen_from : ℕ → List ℕ → Option ℕ
strlen_from n [] = none
strlen_from n (c ∷ s) = if c == 0 then some n else strlen_from (n + 1) s

unfoldable pub strlen : List ℕ → Option ℕ
unfolding strlen_from
strlen s = strlen_from 0 s

unfoldable pub isdigit : ℕ → Bool
isdigit c = leb b'0' c && leb c b'9'

unfoldable pub streq : List ℕ → List ℕ → Option Bool
streq [] t = none
streq (x ∷ s) [] = none
streq (x ∷ s) (y ∷ t) = if not (x == y) then some false else if x == 0 then some true else streq s t

pub streq_same : (s r q : List ℕ) → IsText s → streq (s ++ 0 ∷ r) (s ++ 0 ∷ q) ≡ some true
unfolding streq
streq_same [] r q h = refl
streq_same (x ∷ s) r q h = ground (arith, streq_same s r q h.1)

pub streq_ne :
    (s t r q : List ℕ) → IsText s → IsText t → s ≢ t → streq (s ++ 0 ∷ r) (t ++ 0 ∷ q) ≡ some false
unfolding streq
streq_ne [] [] r q hs ht ne = absurd (ne refl)
streq_ne [] (y ∷ t) r q hs ht ne = ground arith
streq_ne (x ∷ s) [] r q hs ht ne = ground arith
streq_ne (x ∷ s) (y ∷ t) r q hs ht ne = elim (Bool-cases (x == y)) [
  | inl e ↦
      let f = (==_iff x y).0 e in
      rw (e, ==_ne x 0 hs.0) (streq_ne s t r q hs.1 ht.1 (λ g. ne (ap₂ ◌∷◌ f g)))
  | inr n ↦ rw n
]

strlen_from_cstr :
    (n : ℕ) (s rest : List ℕ) → IsText s → strlen_from n (s ++ 0 ∷ rest) ≡ some (n + length s)
unfolding strlen_from
strlen_from_cstr n [] rest h = ap some (omega arith)
strlen_from_cstr n (c ∷ s) rest h = ground (arith, strlen_from_cstr (n + 1) s rest h.1)

pub strlen_cstr :
    (text rest : List ℕ) → IsText text → strlen (text ++ 0 ∷ rest) ≡ some (length text)
unfolding strlen
strlen_cstr text rest h = strlen_from_cstr 0 text rest h ∙ ap some (omega arith)

-- Two terminated strings are compared within their bounds.
pub streq_total : (s t r q : List ℕ) → (b : Bool) × (streq (s ++ 0 ∷ r) (t ++ 0 ∷ q) ≡ some b)
unfolding streq
streq_total [] [] r q = (true, refl)
streq_total [] (y ∷ t) r q = (0 == y, ground arith)
streq_total (x ∷ s) [] r q = (x == 0, ground arith)
streq_total (x ∷ s) (y ∷ t) r q = elim (Bool-cases (not (x == y))) [
  | inl e ↦ (false, rw e)
  | inr e ↦ elim (Bool-cases (x == 0)) [
    | inl z ↦ (true, rw (e, z))
    | inr nz ↦ let (b, p) = streq_total s t r q in (b, rw (e, nz) p)
  ]
]
