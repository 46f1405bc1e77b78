-- ===== src/User/Grep.antt =====
-- `fgets` of nikshita.dir/sbin/input_functions.c, and the loop of nikshita.dir/sbin/grep.c. The input
-- is the list of the bytes that `read` still delivers; a write outside of the buffer is a fault.
-- `printf` gives what `printf("%s", s)` writes for a text.
pub mod Fgets
pub mod Lines
use os_shell.Common.{
  ℕ, zero, suc, ◌+◌, ◌-◌, Bool, true, false, Option, none, some, List, [], ◌∷◌, ◌++◌, length, drop,
  ltb, ◌==◌, if◌then◌else◌,
}
use os_shell.User.Strings.{strstr}

abbrev pub newline : ℕ
newline = 10

-- The loop, with the bytes that there is room for: the bytes that it stores and the input behind.
pub fgets_loop : ℕ → List ℕ → List ℕ × List ℕ
fgets_loop zero input = ([], input)
fgets_loop (suc room) [] = ([], [])
fgets_loop (suc room) (c ∷ input) =
    let (line, rest) = fgets_loop room input in
    if c == newline then (c ∷ [], input) else (c ∷ line, rest)

-- Whether the result is `s` and not null, what is in the buffer, and the input behind.
unfoldable pub fgets : List ℕ → ℕ → List ℕ → Option (Bool × List ℕ × List ℕ)
unfolding fgets_loop
fgets s size input =
    let (line, rest) = fgets_loop (size - 1) input in
    if ltb (length line) (length s)
    then some (ltb 0 (length line), line ++ 0 ∷ drop (length line + 1) s, rest)
    else none

-- A buffer up to its first NUL, as `%s` sees it.
abbrev pub before_nul : List ℕ → List ℕ
before_nul [] = []
before_nul (c ∷ s) = if c == 0 then [] else c ∷ before_nul s

-- `printf("%s", s)`
pub print_string : (List ℕ → List ℕ) → List ℕ → List ℕ
print_string printf s = printf (before_nul s)

module _ (printf : List ℕ → List ℕ) where
  -- Each round takes at least one byte, so that one round more than there are bytes is enough. The
  -- outer `none` is that the rounds run out, the inner one is a fault.
  unfoldable pub grep_loop : ℕ → List ℕ → List ℕ → List ℕ → Option (Option (List ℕ))
  grep_loop zero pattern line input = none
  grep_loop (suc rounds) pattern line input = elim (fgets line 1024 input) [
    | none ↦ some none
    | some (false, line', rest) ↦ some (some [])
    | some (true, line', rest) ↦ elim (strstr line' pattern) [
      | none ↦ some none
      | some hit ↦ elim (grep_loop rounds pattern line' rest) [
        | none ↦ none
        | some none ↦ some none
        | some (some out) ↦
            some (some (elim hit [ none ↦ out | some i ↦ print_string printf line' ++ out ]))
      ]
    ]
  ]

  pub grep : List ℕ → List ℕ → List ℕ → Option (Option (List ℕ))
  grep pattern line input = grep_loop (length input + 1) pattern line input
