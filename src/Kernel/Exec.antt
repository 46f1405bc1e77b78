-- ===== src/Kernel/Exec.antt =====
-- Running a program: `SYS::exec` of kernel/sys.cc. An argument is the bytes from its pointer on; the
-- copy of an argument is padded, with the bytes that stand behind it. `memory` is the memory as
-- `clear_private` leaves it.
pub mod Strings
pub mod Stack
pub mod Runs
use os_shell.Common.{
  ℕ, ◌+◌, ◌-◌, ◌%◌, ◌^◌, Option, none, some, List, [], ◌∷◌, length, get_or, ◌==◌, if◌then◌else◌,
  not, ltb, take, true, false, ◌||◌, ◌>>=◌,
}
use os_shell.Common.Text.{bytes32, store}
use os_shell.Kernel.BlockIo.{read_object}
use os_shell.Kernel.Elf.{ElfHeader, elf_header, elf_header_size, load}
use os_shell.Kernel.Ext2.{Ext2, find}
use os_shell.Kernel.Libk.{strlen}
use os_shell.Kernel.Node.{Node, node_io, is_file, wrap}

-- `refused` is a result -1 to -9; `switch_to_user` is the end at the entry point, with the stack
-- pointer and the memory; `fault` is a panic or a read past what is there.
pub data Executed : Type 0 where
  refused : ℕ → Executed
  switch_to_user : ℕ → ℕ → (ℕ → ℕ) → Executed
  fault : Executed

-- `sp -= n` of a `uint32_t`.
abbrev pub below : ℕ → ℕ → ℕ
below sp n = wrap (sp + 2 ^ 32 - n)

abbrev pub padded : ℕ → ℕ
padded size = size + (4 - size % 4)

-- The strings, from the last one to the first: their addresses, the stack pointer, and the memory.
unfoldable pub push_strings : List (List ℕ) → ℕ → (ℕ → ℕ) → Option (List ℕ × ℕ × (ℕ → ℕ))
push_strings [] sp memory = some ([], sp, memory)
push_strings (arg ∷ argv) sp memory = do
  (addresses, sp', memory') ← push_strings argv sp memory
  n ← strlen arg
  let size = padded (n + 1)
  if ltb (length arg) size
      then none
      else some (
        below sp' size ∷ addresses,
        below sp' size,
        store memory' (below sp' size) (take size arg),
      )

-- The words, from the last one to the first.
unfoldable pub push_words : List ℕ → ℕ → (ℕ → ℕ) → ℕ × (ℕ → ℕ)
push_words [] sp memory = (sp, memory)
push_words (w ∷ words) sp memory =
    let (sp', memory') = push_words words sp memory in
    (below sp' 4, store memory' (below sp' 4) (bytes32 w))

abbrev pub stack_top : ℕ
stack_top = 0xefffe000

-- The strings, a null word, their addresses, the address of these, and their number.
unfoldable pub build_stack : List (List ℕ) → (ℕ → ℕ) → Option (ℕ × (ℕ → ℕ))
unfolding push_strings push_words
build_stack argv memory = do
  (addresses, sp0, memory0) ← push_strings argv stack_top memory
  let sp1 = below sp0 4
  let (sp2, memory2) = push_words addresses sp1 (store memory0 sp1 (0 ∷ 0 ∷ 0 ∷ 0 ∷ []))
  let sp3 = below sp2 4
  let memory3 = store memory2 sp3 (bytes32 (wrap (sp3 + 4)))
  let sp4 = below sp3 4
  some (sp4, store memory3 sp4 (bytes32 (length argv)))

-- What is wrong with a header, 0 if nothing is.
unfoldable pub check_header : ElfHeader → ℕ
check_header hdr =
    if not (get_or hdr.magic 0 0 == 0x7F)
      || not (get_or hdr.magic 1 0 == b'E')
      || not (get_or hdr.magic 2 0 == b'L')
      || not (get_or hdr.magic 3 0 == b'F')
    then 3
    else if not (hdr.encoding == 1)
    then 4
    else if not (hdr.cls == 1)
    then 5
    else if not (hdr.abi == 0)
    then 6
    else if not (hdr.kind == 2)
    then 7
    else if not (hdr.version == 1)
    then 8
    else if hdr.phoff == 0
    then 9
    else 0

module _ (fs : Ext2) where
  -- Behind the checks.
  unfoldable pub set_up : Node → List (List ℕ) → (ℕ → ℕ) → Option (ℕ × ℕ × (ℕ → ℕ))
  unfolding build_stack load
  set_up file argv memory = do
    (sp, memory1) ← build_stack argv memory
    (entry, memory2) ← load (node_io fs.ide fs.block_size file) memory1
    some (entry, sp, memory2)

  unfoldable pub enter : Node → List (List ℕ) → (ℕ → ℕ) → Executed
  unfolding set_up
  enter file argv memory = elim (set_up file argv memory) [
    | none ↦ fault
    | some (entry, sp, memory') ↦ switch_to_user entry sp memory'
  ]

  unfoldable pub exec_file : Node → List (List ℕ) → (ℕ → ℕ) → Executed
  unfolding enter check_header
  exec_file file argv memory =
      if not (is_file file.info)
      then refused (2 ^ 32 - 2)
      else (elim (read_object (node_io fs.ide fs.block_size file) 0 elf_header_size) [
        | none ↦ fault
        | some got ↦
            let code = check_header (elf_header got) in
            if code == 0 then enter file argv memory else refused (2 ^ 32 - code)
      ])

  unfoldable pub exec : Node → List ℕ → List (List ℕ) → (ℕ → ℕ) → Executed
  unfolding exec_file
  exec root path argv memory = elim (find fs (some root) path) [
    | none ↦ fault
    | some none ↦ refused (2 ^ 32 - 1)
    | some (some file) ↦ exec_file file argv memory
  ]
