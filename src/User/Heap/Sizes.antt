-- ===== src/User/Heap/Sizes.antt =====
-- How many `int`s `malloc` asks for.
use os_shell.Common.{ℕ, ◌+◌, ◌^◌, ◌<◌, ◌≤◌, ◌≡◌, arith}
use os_shell.User.Heap.{ints_of}

-- For the three greatest sizes it wraps, and the block has room for two `int`s only.
pub ints_of_wrap : (bytes : ℕ) → 2 ^ 32 ≤ bytes + 3 → bytes < 2 ^ 32 → ints_of bytes ≡ 4
ints_of_wrap bytes h k = omega arith
