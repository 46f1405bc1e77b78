-- ===== src/User/Strings/Compare.antt =====
-- `strlen`, `my_strcmp` and `my_strncmp` on terminated strings.
use os_shell.Common.{
  ℕ, zero, suc, ◌+◌, ◌≤◌, ◌≡◌, refl, ◌↔◌, true, some, List, [], ◌∷◌, ◌++◌, ap, ◌∙◌, arith, length,
  take, Bool-cases, inl, inr, not, ◌&&◌, ◌==◌,
}
use os_shell.Common.Int.{ℤ, pos, sub_ℕ}
use os_shell.Common.Text.{IsText}
use os_shell.User.Strings.{strlen_from, strlen, my_strcmp, my_strncmp}

strlen_from_cstr :
    (n : ℕ) (s rest : List ℕ) → IsText s → strlen_from n (s ++ 0 ∷ rest) ≡ some (n + length s)
unfolding strlen_from
strlen_from_cstr n [] rest h = ap some (omega arith)
strlen_from_cstr n (c ∷ s) rest h = ground (arith, strlen_from_cstr (n + 1) s rest h.1)

-- `strlen` counts the bytes before the first NUL, whatever stands behind it.
pub strlen_lem : (s rest : List ℕ) → IsText s → strlen (s ++ 0 ∷ rest) ≡ some (length s)
unfolding strlen
strlen_lem s rest h = strlen_from_cstr 0 s rest h ∙ ap some (omega arith)

my_strcmp_same : (s r q : List ℕ) → IsText s → my_strcmp (s ++ 0 ∷ r) (s ++ 0 ∷ q) ≡ some (pos 0)
unfolding my_strcmp
my_strcmp_same [] r q h = refl
my_strcmp_same (x ∷ s) r q h = ground (arith, my_strcmp_same s r q h.1)

my_strcmp-zero :
    (s t r q : List ℕ)
    → IsText s
    → IsText t
    → my_strcmp (s ++ 0 ∷ r) (t ++ 0 ∷ q) ≡ some (pos 0)
    → s ≡ t
unfolding my_strcmp
my_strcmp-zero [] [] r q hs ht e = refl
my_strcmp-zero [] (y ∷ t) r q hs ht e = ground arith
my_strcmp-zero (x ∷ s) [] r q hs ht e = ground arith
my_strcmp-zero (x ∷ s) (y ∷ t) r q hs ht e = ground (arith, my_strcmp-zero s t r q hs.1 ht.1)

-- `my_strcmp` returns 0 exactly on equal strings, whatever stands behind the terminators.
pub my_strcmp_iff :
    (s t r q : List ℕ)
    → IsText s
    → IsText t
    → (my_strcmp (s ++ 0 ∷ r) (t ++ 0 ∷ q) ≡ some (pos 0)) ↔ (s ≡ t)
my_strcmp_iff s t r q hs ht = (my_strcmp-zero s t r q hs ht, λ e. rw e (my_strcmp_same t r q ht))

-- Two terminated strings are compared within their bounds.
pub my_strcmp_total : (s t r q : List ℕ) → (d : ℤ) × (my_strcmp (s ++ 0 ∷ r) (t ++ 0 ∷ q) ≡ some d)
unfolding my_strcmp
my_strcmp_total [] [] r q = (sub_ℕ 0 0, refl)
my_strcmp_total [] (y ∷ t) r q = (sub_ℕ 0 y, refl)
my_strcmp_total (x ∷ s) [] r q = (sub_ℕ x 0, ground arith)
my_strcmp_total (x ∷ s) (y ∷ t) r q = elim (Bool-cases (not (x == 0) && x == y)) [
  | inl e ↦ let (d, p) = my_strcmp_total s t r q in (d, rw e p)
  | inr e ↦ (sub_ℕ x y, rw e)
]

-- `my_strncmp` compares the first `size` bytes of both arrays.
pub my_strncmp_iff :
    (s t : List ℕ) (size : ℕ)
    → size ≤ length s
    → size ≤ length t
    → (my_strncmp s t size ≡ some true) ↔ (take size s ≡ take size t)
unfolding my_strncmp
my_strncmp_iff s t zero hs ht = (λ e. refl, λ e. refl)
my_strncmp_iff [] t (suc k) hs ht = absurd (omega arith)
my_strncmp_iff (x ∷ s) [] (suc k) hs ht = absurd (omega arith)
my_strncmp_iff (x ∷ s) (y ∷ t) (suc k) hs ht =
    let ih = my_strncmp_iff s t k (omega arith) (omega arith) in
    (λ e. ground (arith, ih.0), λ e. ground (arith, ih.1))
