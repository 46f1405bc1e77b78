-- ===== src/User/Login/Accounts.antt =====
-- Which credentials `login` accepts.
use os_shell.Common.{
  ℕ, zero, suc, ◌≡◌, refl, ◌↔◌, ◌⊎◌, inl, inr, Bool, true, false, Option, some, List, [], ◌∷◌, ◌++◌,
  arith, replicate, Bool-cases,
}
use os_shell.Common.Int.{ℤ, pos, negsuc}
use os_shell.Common.Text.{IsText}
use os_shell.User.Strings.{my_strcmp}
use os_shell.User.Strings.Compare.{my_strcmp_iff, my_strcmp_total}
use os_shell.User.Login.{
  User, users, is_zero, login_loop, login, bob, urmom, urmomdotcom, test, test123,
}

-- The table as the pairs of texts that it is written with.
abbrev pub Account : Type 0
Account = List ℕ × List ℕ

-- An account is in the list.
abbrev pub Listed : List Account → List ℕ → List ℕ → Type 0
Listed [] name word = ⊥
Listed ((n, w) ∷ rest) name word = ((n ≡ name) × (w ≡ word)) ⊎ Listed rest name word

-- An entry holds two terminated texts.
abbrev Holds : User → Account → Type 0
Holds u (n, w) =
    (r : List ℕ) × (q : List ℕ) × (u.username ≡ n ++ 0 ∷ r)
    × (u.password ≡ w ++ 0 ∷ q)
    × IsText n
    × IsText w

abbrev HoldAll : List User → List Account → Type 0
HoldAll [] [] = Unit {0}
HoldAll [] (a ∷ more) = ⊥
HoldAll (u ∷ us) [] = ⊥
HoldAll (u ∷ us) (a ∷ more) = Holds u a × HoldAll us more

is_zero_iff : (d : ℤ) → is_zero d ≡ true → d ≡ pos 0
is_zero_iff (pos zero) h = refl
is_zero_iff (pos (suc n)) h = cc
is_zero_iff (negsuc n) h = cc

-- The comparison of a field with what was typed ends, and says whether they are equal.
abbrev Compares : List ℕ → List ℕ → Option ℤ → Type 0
Compares s t found = (d : ℤ) × (found ≡ some d) × ((is_zero d ≡ true) ↔ (s ≡ t))

compare_field :
    (s t r q : List ℕ) → IsText s → IsText t → Compares s t (my_strcmp (s ++ 0 ∷ r) (t ++ 0 ∷ q))
compare_field s t r q hs ht =
    let (d, e) = my_strcmp_total s t r q in
    let same = my_strcmp_iff s t r q hs ht in
    (d, e, (λ z. same.0 (ground (arith, is_zero_iff d)), λ p. ground (arith, same.1 p)))

-- One entry of the loop: it answers 1 where both fields agree, and leaves the answer to the rest
-- of the table elsewhere.
abbrev pub Accepts : Bool → List Account → List ℕ → List ℕ → Type 0
Accepts b accounts name word = (b ≡ true) ↔ Listed accounts name word

login_loop_lem :
    (us : List User) (accounts : List Account) (name word r q : List ℕ)
    → HoldAll us accounts
    → IsText name
    → IsText word
    → (b : Bool) × (login_loop us (name ++ 0 ∷ r) (word ++ 0 ∷ q) ≡ some b)
      × Accepts b accounts name word
unfolding login_loop
login_loop_lem [] [] name word r q h hn hw = (false, refl, ((λ e. cc), λ l. absurd l))
login_loop_lem [] (a ∷ more) name word r q h hn hw = absurd h
login_loop_lem (u ∷ us) [] name word r q h hn hw = absurd h
login_loop_lem (u ∷ us) ((n, w) ∷ more) name word r q ((nr, wr, en, ew, tn, tw), h) hn hw =
    let (b, e, iff) = login_loop_lem us more name word r q h hn hw in
    let (dn, pn, in_name) = compare_field n name nr r tn hn in
    let (dw, pw, in_word) = compare_field w word wr q tw hw in
    elim (Bool-cases (is_zero dn)) [
      | inl zn ↦ elim (Bool-cases (is_zero dw)) [
        | inl zw ↦ (
          true,
          rw (en, pn, zn, ew, pw, zw, login_loop),
          (λ x. inl (in_name.0 zn, in_word.0 zw), λ l. refl),
        )
        | inr zw ↦ (
          b,
          rw (en, pn, zn, ew, pw, zw, login_loop) e,
          (λ x. inr (iff.0 x), λ l. ground (arith, in_word.1, iff.1)),
        )
      ]
      | inr zn ↦ (
        b,
        rw (en, pn, zn, login_loop) e,
        (λ x. inr (iff.0 x), λ l. ground (arith, in_name.1, iff.1)),
      )
    ]

abbrev pub accounts : List Account
accounts = (bob, bob) ∷ (urmom, urmomdotcom) ∷ (test, test123) ∷ ([], []) ∷ []

abbrev zeros : ℕ → List ℕ
zeros n = replicate n 0

users-HoldAll : HoldAll users accounts
users-HoldAll = (
  (zeros 16, zeros 16, refl, refl, omega arith, omega arith),
  (
    (zeros 14, zeros 8, refl, refl, omega arith, omega arith),
    (
      (zeros 15, zeros 12, refl, refl, omega arith, omega arith),
      ((zeros 19, zeros 19, refl, refl, omega arith, omega arith), tt),
    ),
  ),
)

-- `login` reads within its arrays and answers 1 exactly for the three accounts of the source, and
-- for an empty name with an empty password, which is what the uninitialised fourth entry holds.
pub login_lem :
    (name word r q : List ℕ)
    → IsText name
    → IsText word
    → (b : Bool) × (login (name ++ 0 ∷ r) (word ++ 0 ∷ q) ≡ some b) × Accepts b accounts name word
unfolding login
login_lem name word r q hn hw = login_loop_lem users accounts name word r q users-HoldAll hn hw
