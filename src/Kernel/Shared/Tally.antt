-- ===== src/Kernel/Shared/Tally.antt =====
-- How many variables refer to an object.
use os_shell.Common.{
  ℕ, zero, suc, ◌+◌, ◌≤◌, ◌<◌, ◌≡◌, Option, none, some, List, [], ◌∷◌, ◌++◌, arith, ◌==◌,
  if◌then◌else◌, length, get_or, set,
}

abbrev pub one : ℕ → Option ℕ → ℕ
one o none = 0
one o (some p) = if o == p then 1 else 0

unfoldable pub tally : ℕ → List (Option ℕ) → ℕ
tally o [] = 0
tally o (h ∷ hs) = one o h + tally o hs

pub tally-append : (o : ℕ) (hs ks : List (Option ℕ)) → tally o (hs ++ ks) ≡ tally o hs + tally o ks
unfolding tally
tally-append o [] ks = omega arith
tally-append o (h ∷ hs) ks = omega (arith, tally-append o hs ks)

pub tally-set :
    (o : ℕ) (hs : List (Option ℕ)) (h : ℕ) (p : Option ℕ)
    → h < length hs
    → tally o (set hs h p) + one o (get_or hs h none) ≡ tally o hs + one o p
unfolding tally
tally-set o [] h p inside = absurd (omega arith)
tally-set o (x ∷ hs) zero p inside = omega arith
tally-set o (x ∷ hs) (suc h) p inside = omega (arith, tally-set o hs h p (omega arith))

pub one-le-tally : (o : ℕ) (hs : List (Option ℕ)) (h : ℕ) → one o (get_or hs h none) ≤ tally o hs
unfolding tally
one-le-tally o [] h = omega arith
one-le-tally o (x ∷ hs) zero = omega arith
one-le-tally o (x ∷ hs) (suc h) = omega (arith, one-le-tally o hs h)

pub tally-le-length : (o : ℕ) (hs : List (Option ℕ)) → tally o hs ≤ length hs
unfolding tally
tally-le-length o [] = omega arith
tally-le-length o (none ∷ hs) = omega (arith, tally-le-length o hs)
tally-le-length o (some p ∷ hs) = ground (arith, tally-le-length o hs)

pub tally_one : (o : ℕ) (p : Option ℕ) → tally o (p ∷ []) ≡ one o p
unfolding tally
tally_one o p = omega arith
