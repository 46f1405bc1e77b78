-- ===== src/Kernel/Execl.antt =====
-- The handlers of execl and execvp in `sysHandler` of kernel/sys.cc, which differ in where their
-- arguments begin: at userEsp[2] and at userEsp[5].
pub mod Passes
use os_shell.Common.{
  ℕ, zero, suc, ◌+◌, ◌-◌, ◌*◌, ◌^◌, Option, none, some, List, [], ◌∷◌, ◌++◌, length, ◌==◌,
  if◌then◌else◌, ◌>>=◌, true, false,
}
use os_shell.Common.Text.{word32_at, bytes_at}
use os_shell.Kernel.Exec.{Executed, refused, fault, exec}
use os_shell.Kernel.Process.{minus_one}
use os_shell.Kernel.Sys.{System, user_text}

-- The word at an address.
abbrev pub word_at : (ℕ → ℕ) → ℕ → ℕ
word_at memory a = word32_at (bytes_at memory a 4) 0

-- `clear` is what `clear_private` makes of the memory; `behind` is what stands in the kernel's heap
-- behind the copy of an argument.
module _ (clear : (ℕ → ℕ) → ℕ → ℕ) (behind : List ℕ) where
  -- The copies of the arguments from an address on, up to a null pointer.
  unfoldable pub copy_args : ℕ → ℕ → System → Option (List (List ℕ))
  copy_args zero a s = none
  copy_args (suc rounds) a s = if word_at s.memory a == 0 then some [] else (do
    text ← user_text s (word_at s.memory a)
    rest ← copy_args rounds (a + 4) s
    some ((text ++ behind) ∷ rest))

  -- The path and the copied arguments: the inner `none` is the result -1.
  unfoldable pub get_args : ℕ → ℕ → ℕ → System → Option (Option (List ℕ × List (List ℕ)))
  unfolding copy_args
  get_args rounds first esp s = do
    argv ← copy_args rounds (esp + 4 * first) s
    if word_at s.memory (esp + 4 * first + 4 * length argv - 4) == 0
        then some none
        else (do path ← user_text s (word_at s.memory (esp + 4)); some (some (path, argv)))

  unfoldable pub exec_from : ℕ → ℕ → ℕ → System → Executed
  unfolding get_args
  exec_from rounds first esp s = elim (get_args rounds first esp s) [
    | none ↦ fault
    | some none ↦ refused minus_one
    | some (some (path, argv)) ↦ exec s.fs s.root path argv (clear s.memory)
  ]

  pub sys_execl : ℕ → ℕ → System → Executed
  unfolding exec_from
  sys_execl rounds esp s = exec_from rounds 2 esp s

  pub sys_execvp : ℕ → ℕ → System → Executed
  unfolding exec_from
  sys_execvp rounds esp s = exec_from rounds 5 esp s
