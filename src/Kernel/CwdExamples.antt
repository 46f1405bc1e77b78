-- ===== src/Kernel/CwdExamples.antt =====
-- The theorems on cd and pwd at a small memory.
use os_shell.Common.{ℕ, ◌+◌, ◌≤◌, ◌≡◌, inl, inr, refl, some, List, [], ◌∷◌, ◌++◌, arith}
use os_shell.Common.Text.{bytes_at, store}
use os_shell.Kernel.Cwd.{sys_cd}
use os_shell.Kernel.Cwd.Changes.{HasRoom, Changed, cd_pwd}
use os_shell.Kernel.Cwd.Parent.{cd_parent_lem}

abbrev sbin : List ℕ
sbin = b's' ∷ b'b' ∷ b'i' ∷ b'n' ∷ []

abbrev folder : List ℕ
folder = b'd' ∷ []

-- The working directory stands at 4096, the name at 2 ^ 31.
abbrev in_sbin : ℕ → ℕ
in_sbin = store (store (λ a. 0) 4096 sbin) 0x80000000 folder

in_sbin-HasRoom : HasRoom 4096 8192 0x80000000 sbin folder in_sbin
in_sbin-HasRoom = record {
  dir_text = omega arith;
  name_text = omega arith;
  at_cwd = refl;
  at_added = refl;
  cwd_apart = inl (omega arith);
  empty_apart = inl (omega arith);
  literals_apart = inr (omega arith);
  cwd_in = omega arith;
  added_in = omega arith;
}

cd_pwd_example : Changed 4096 8192 0x80000000 1 0x90000000 sbin (sbin ++ b'/' ∷ folder) in_sbin
cd_pwd_example =
    cd_pwd 4096 8192 0x80000000 1 0x90000000 sbin folder in_sbin in_sbin-HasRoom (λ e. cc) (λ e. cc)
      (λ e. absurd (omega arith)) (inr (omega arith))

-- The working directory "sbin/d", and the name "..".
abbrev in_folder : ℕ → ℕ
in_folder = store (store (λ a. 0) 4096 (sbin ++ b'/' ∷ folder)) 0x80000000 (b'.' ∷ b'.' ∷ [])

cd_parent_lem_example :
    (memory' : ℕ → ℕ) × (sys_cd 4096 8192 0x80000000 0 in_folder ≡ some memory')
    × (bytes_at memory' 0x80000000 4 ≡ sbin)
    × ((a : ℕ) → 0x80000000 + 4 ≤ a → memory' a ≡ in_folder a)
cd_parent_lem_example =
    cd_parent_lem 4096 8192 0x80000000 sbin folder in_folder refl (omega arith) (omega arith)
      (omega arith) refl (omega arith) (omega arith)
