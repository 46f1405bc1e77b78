-- ===== src/User/Login.antt =====
-- The credential check of nikshita.dir/sbin/login.c.
pub mod Accounts
use os_shell.Common.{
  ℕ, zero, suc, ◌+◌, ◌-◌, Bool, true, false, Option, none, some, List, [], ◌∷◌, ◌++◌, length,
  replicate,
}
use os_shell.Common.Int.{ℤ, pos, negsuc}
use os_shell.User.Strings.{my_strcmp}

abbrev pub max_char_limit : ℕ
max_char_limit = 20

-- A `char[20]` that is initialised by a string literal: the rest is filled with zeros.
abbrev pub char_array : List ℕ → List ℕ
char_array s = s ++ replicate (max_char_limit - length s) 0

pub record User : Type 0 where
  pub username : List ℕ
  pub password : List ℕ

abbrev pub user : List ℕ → List ℕ → User
user name word = record { username = char_array name; password = char_array word }

abbrev pub bob : List ℕ
bob = b'b' ∷ b'o' ∷ b'b' ∷ []

abbrev pub urmom : List ℕ
urmom = b'u' ∷ b'r' ∷ b'm' ∷ b'o' ∷ b'm' ∷ []

abbrev pub urmomdotcom : List ℕ
urmomdotcom = urmom ++ b'd' ∷ b'o' ∷ b't' ∷ b'c' ∷ b'o' ∷ b'm' ∷ []

abbrev pub test : List ℕ
test = b't' ∷ b'e' ∷ b's' ∷ b't' ∷ []

abbrev pub test123 : List ℕ
test123 = test ++ b'1' ∷ b'2' ∷ b'3' ∷ []

-- Three of the MAX_USERS = 4 entries are initialised; C fills the fourth with zeros.
abbrev pub users : List User
users = user bob bob ∷ user urmom urmomdotcom ∷ user test test123 ∷ user [] [] ∷ []

-- `my_strcmp(...) == 0`
abbrev pub is_zero : ℤ → Bool
is_zero (pos zero) = true
is_zero _ = false

-- The loop over the table; `&&` compares the passwords only where the names agree.
unfoldable pub login_loop : List User → List ℕ → List ℕ → Option Bool
login_loop [] username password = some false
login_loop (u ∷ us) username password =
    let rest = login_loop us username password in
    elim (my_strcmp u.username username) [
      | none ↦ none
      | some d ↦ elim (is_zero d) [
        | false ↦ rest
        | true ↦ elim (my_strcmp u.password password) [
          | none ↦ none
          | some e ↦ elim (is_zero e) [ true ↦ some true | false ↦ rest ]
        ]
      ]
    ]

unfoldable pub login : List ℕ → List ℕ → Option Bool
unfolding login_loop
login username password = login_loop users username password
