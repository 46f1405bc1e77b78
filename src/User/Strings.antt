-- ===== src/User/Strings.antt =====
-- The string routines of nikshita.dir/sbin/input_functions.c.
-- A `char *` is the list of the bytes from the pointer to the end of its object; a read past the
-- end is a fault, `none`.
pub mod Compare
pub mod Search
use os_shell.Common.{
  ℕ, zero, suc, ◌+◌, ◌≡◌, ◌≢◌, Bool, true, false, ◌&&◌, not, Option, none, some, List, [], ◌∷◌,
  ◌++◌, ◌==◌, if◌then◌else◌, All,
}
use os_shell.Common.Int.{ℤ, sub_ℕ}

-- `while (*str++ != 0) n++;`
strlen_from : ℕ → List ℕ → Option ℕ
strlen_from n [] = none
strlen_from n (c ∷ s) = if c == 0 then some n else strlen_from (n + 1) s

pub strlen : List ℕ → Option ℕ
unfolding strlen_from
strlen s = strlen_from 0 s

-- The bytes are compared as they are, and subtracted as unsigned ones.
unfoldable pub my_strcmp : List ℕ → List ℕ → Option ℤ
my_strcmp [] t = none
my_strcmp (x ∷ s) [] = none
my_strcmp (x ∷ s) (y ∷ t) = if not (x == 0) && x == y then my_strcmp s t else some (sub_ℕ x y)

-- `size` bytes are compared, NUL or not: `true` is the 1 of the source, `false` its 0.
unfoldable pub my_strncmp : List ℕ → List ℕ → ℕ → Option Bool
my_strncmp s t zero = some true
my_strncmp [] t (suc k) = none
my_strncmp (x ∷ s) [] (suc k) = none
my_strncmp (x ∷ s) (y ∷ t) (suc k) = if x == y then my_strncmp s t k else some false

-- The inner loop of `strstr` with the test behind it: is the needle at the front of the haystack?
match_here : List ℕ → List ℕ → Option Bool
match_here h [] = none
match_here [] (c ∷ n) = if c == 0 then some true else none
match_here (d ∷ h) (c ∷ n) =
    if c == 0 then some true else if d == c then match_here h n else some false

-- The outer loop: `i` bytes of the haystack are behind it. The result is an index, or the null
-- pointer (an inner `none`).
strstr_from : ℕ → List ℕ → List ℕ → Option (Option ℕ)
strstr_from i [] n = none
strstr_from i (d ∷ h) n = if d == 0 then some none else elim (match_here (d ∷ h) n) [
  | none ↦ none
  | some true ↦ some (some i)
  | some false ↦ strstr_from (i + 1) h n
]

unfoldable pub strstr : List ℕ → List ℕ → Option (Option ℕ)
unfolding strstr_from match_here
strstr h [] = none
strstr h (c ∷ n) = if c == 0 then some (some 0) else strstr_from 0 h (c ∷ n)
