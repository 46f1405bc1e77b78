-- ===== src/Kernel/Cwd.antt =====
-- The working directory: `cwd` of kernel/process.h, and the handlers of pwd and cd in kernel/sys.cc.
-- `cwd` is the address of a string literal, which is one for all processes, and `empty` the address of
-- the literal "" of cd. `none` is a read that leaves the memory or the string.
pub mod Texts
pub mod Changes
pub mod Parent
use os_shell.Common.{
  ℕ, zero, suc, ◌+◌, ◌-◌, ◌^◌, Bool, ◌&&◌, Option, none, some, List, [], ◌∷◌, length, ◌==◌,
  if◌then◌else◌, ◌>>=◌,
}
use os_shell.Common.Text.{store, text_at}

-- `K::strlen`
abbrev pub strlen_at : (ℕ → ℕ) → ℕ → Option ℕ
strlen_at memory a = do text ← text_at (2 ^ 32 - a) memory a; some (length text - 1)

-- `memcpy` of kernel/machine.S: one byte after the other, from the first on.
unfoldable pub memcpy : ℕ → ℕ → ℕ → (ℕ → ℕ) → ℕ → ℕ
memcpy to from zero memory = memory
memcpy to from (suc n) memory = memcpy (to + 1) (from + 1) n (store memory to (memory from ∷ []))

-- `memcpy(to, from, n); to[n] = '\0';`
abbrev pub copy_text : ℕ → ℕ → ℕ → (ℕ → ℕ) → ℕ → ℕ
copy_text to from n memory = store (memcpy to from n memory) (to + n) (0 ∷ [])

-- `while (curr_cwd[index] != '/') index--;`
unfoldable pub last_slash : (ℕ → ℕ) → ℕ → ℕ → Option ℕ
last_slash memory a zero = if memory a == b'/' then some 0 else none
last_slash memory a (suc index) =
    let rest = last_slash memory a index in
    if memory (a + suc index) == b'/' then some (suc index) else rest

module _ (cwd empty : ℕ) where
  unfoldable pub set_cwd : ℕ → (ℕ → ℕ) → Option (ℕ → ℕ)
  set_cwd new_cwd memory = do n ← strlen_at memory new_cwd; some (copy_text cwd new_cwd n memory)

  -- The null pointer that is tested for is never there. The result is 0.
  unfoldable pub sys_pwd : ℕ → (ℕ → ℕ) → Option (ℕ → ℕ)
  sys_pwd buffer memory = do n ← strlen_at memory cwd; some (copy_text buffer cwd n memory)

  -- The parent: the path up to the last slash, with no NUL behind it.
  unfoldable pub cd_parent : ℕ → (ℕ → ℕ) → Option (ℕ → ℕ)
  unfolding last_slash
  cd_parent added_path memory = do
    size ← strlen_at memory cwd
    if size == 0 then none else (do
      index ← last_slash memory cwd (size - 1)
      if index == 0 then some memory else some (memcpy added_path cwd index memory))

  -- Any other directory, whose name has `n` bytes.
  unfoldable pub cd_down : ℕ → ℕ → (ℕ → ℕ) → Option (ℕ → ℕ)
  cd_down added_path n memory = do
    let memory1 = copy_text empty added_path n memory
    prev_len ← strlen_at memory1 cwd
    let memory2 = memcpy added_path cwd prev_len memory1
    let memory3 = store memory2 (added_path + prev_len) (b'/' ∷ [])
    some (copy_text (added_path + prev_len + 1) empty n memory3)

  -- The result is 0 in each case.
  unfoldable pub sys_cd : ℕ → ℕ → (ℕ → ℕ) → Option (ℕ → ℕ)
  unfolding cd_parent cd_down set_cwd
  sys_cd added_path path_checked memory =
      if path_checked == 0
      then (do
        n ← strlen_at memory added_path
        if n == 2 && (memory added_path == b'.' && memory (added_path + 1) == b'.')
            then cd_parent added_path memory
            else if n == 1 && memory added_path == b'.'
            then some memory
            else cd_down added_path n memory)
      else set_cwd added_path memory
