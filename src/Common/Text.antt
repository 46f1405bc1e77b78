-- ===== src/Common/Text.antt =====
-- C strings, bytes and little-endian words.
use Prim.Native.Nat.{ℕ, ◌+◌, ◌*◌, ◌/◌, ◌%◌, ◌^◌}
use mathlib.Core.Logic.{◌≢◌}
use Prim.Native.Nat.{zero, suc, ◌-◌}
use mathlib.Core.Bool.{true, false, ◌&&◌}
use mathlib.Core.Option.{Option, none, some}
use mathlib.Core.List.{List, [], ◌∷◌, ◌++◌}
use os_shell.Common.Lists.{All, get_or, length}
use os_shell.Common.Tests.{◌==◌, leb, ltb, if◌then◌else◌}

-- A NUL-terminated string, and what its text must be for the terminator to be the first NUL.
abbrev pub cstr : List ℕ → List ℕ
cstr s = s ++ 0 ∷ []

abbrev pub IsText : List ℕ → Type 0
IsText = All (λ c. c ≢ 0)

-- The number in the bytes of a `uint16_t` or `uint32_t`, from byte `i` on.
abbrev pub word16_at : List ℕ → ℕ → ℕ
word16_at s i = get_or s i 0 + get_or s (i + 1) 0 * 2 ^ 8

abbrev pub word32_at : List ℕ → ℕ → ℕ
word32_at s i = word16_at s i + word16_at s (i + 2) * 2 ^ 16

-- The bytes of such a number.
abbrev pub bytes16 : ℕ → List ℕ
bytes16 w = w % 2 ^ 8 ∷ w / 2 ^ 8 % 2 ^ 8 ∷ []

abbrev pub bytes32 : ℕ → List ℕ
bytes32 w = bytes16 w ++ bytes16 (w / 2 ^ 16)

-- A memory has a byte at each address: `n` bytes from `a` on, and the memory with other bytes there.
abbrev pub bytes_at : (ℕ → ℕ) → ℕ → ℕ → List ℕ
bytes_at memory a zero = []
bytes_at memory a (suc n) = memory a ∷ bytes_at memory (a + 1) n

abbrev pub store : (ℕ → ℕ) → ℕ → List ℕ → ℕ → ℕ
store memory a bytes i =
    if leb a i && ltb i (a + length bytes) then get_or bytes (i - a) 0 else memory i

-- A C string at an address, its NUL included; `none` is that no NUL stands in the next `n` bytes.
unfoldable pub text_at : ℕ → (ℕ → ℕ) → ℕ → Option (List ℕ)
text_at zero memory a = none
text_at (suc n) memory a = elim (memory a == 0) [
  | true ↦ some (0 ∷ [])
  | false ↦ elim (text_at n memory (a + 1)) [ none ↦ none | some s ↦ some (memory a ∷ s) ]
]
