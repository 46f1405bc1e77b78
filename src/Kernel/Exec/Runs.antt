-- ===== src/Kernel/Exec/Runs.antt =====
-- A program that is found and in order runs, with its arguments on its stack.
use os_shell.Common.{
  ℕ, ◌+◌, ◌-◌, ◌*◌, ◌≤◌, ◌≡◌, ◌≢◌, inl, inr, refl, some, List, [], ◌∷◌, ◌++◌, arith, ◌∙◌, length,
  All, ==_ne, map, true,
}
use os_shell.Common.Text.{IsText, bytes_at}
use os_shell.Kernel.BlockIo.{BlockIo, IsDevice}
use os_shell.Kernel.BlockIo.Blocks.{slice}
use os_shell.Kernel.BlockIo.Objects.{read_object_lem}
use os_shell.Kernel.Elf.{ElfHeader, ProgramHeader, elf_header}
use os_shell.Kernel.Elf.Segments.{HeadersAt, IsSegment, AreApart, AreLoaded, IsApart, load_lem}
use os_shell.Kernel.Exec.{check_header, enter, exec, exec_file, set_up, stack_top, switch_to_user}
use os_shell.Kernel.Exec.Strings.{Argument, arg_bytes, Hold-Kept, places}
use os_shell.Kernel.Exec.Stack.{Built, build_stack_lem, stack_size}
use os_shell.Kernel.Ext2.{Ext2}
use os_shell.Kernel.Ext2.Parts.{walk, parts_of}
use os_shell.Kernel.Ext2.Paths.{find_lem}
use os_shell.Kernel.Node.{Node, node_io, is_file}

-- An executable program for a 32-bit little-endian machine.
pub record IsProgram (hdr : ElfHeader) : Type 0 where
  pub magic : hdr.magic ≡ 0x7F ∷ b'E' ∷ b'L' ∷ b'F' ∷ []
  pub encoding : hdr.encoding ≡ 1
  pub cls : hdr.cls ≡ 1
  pub abi : hdr.abi ≡ 0
  pub kind : hdr.kind ≡ 2
  pub version : hdr.version ≡ 1
  pub phoff : hdr.phoff ≢ 0

check_header_lem : (hdr : ElfHeader) → IsProgram hdr → check_header hdr ≡ 0
unfolding check_header
check_header_lem hdr ok =
    rw (ok.magic, ok.encoding, ok.cls)
      (rw (ok.abi, ok.kind, ok.version) (rw (==_ne hdr.phoff 0 ok.phoff) refl))

IsApart-part :
    (a n b k : ℕ) (phdrs : List ProgramHeader)
    → a ≤ b
    → b + k ≤ a + n
    → All (IsApart a n) phdrs
    → All (IsApart b k) phdrs
IsApart-part a n b k [] lo hi h = tt
IsApart-part a n b k (phdr ∷ phdrs) lo hi (h, hs) = (
  λ one. elim (h one) [ inl l ↦ inl (omega arith) | inr r ↦ inr (omega arith) ],
  IsApart-part a n b k phdrs lo hi hs,
)

-- The program in a file: its headers, its segments apart from each other, and `args` for it, which
-- leave room for themselves on the stack that no segment meets.
pub record Runnable (file : BlockIo) (args : List Argument) (hdr : ElfHeader)
    (phdrs : List ProgramHeader) : Type 0 where
  pub device : IsDevice file
  pub inside : 52 ≤ file.size_in_bytes
  pub header : elf_header (slice file 0 52) ≡ hdr
  pub program : IsProgram hdr
  pub number : length phdrs ≡ hdr.phnum
  pub headers : HeadersAt file hdr.phoff hdr.phentsize phdrs
  pub segments : All (IsSegment file) phdrs
  pub apart : AreApart phdrs
  pub fits : stack_size args ≤ stack_top
  pub stack : All (IsApart (stack_top - stack_size args) (stack_size args)) phdrs

module _ (fs : Ext2) (root file : Node) (args : List Argument) (hdr : ElfHeader)
    (phdrs : List ProgramHeader)
    (ok : Runnable (node_io fs.ide fs.block_size file) args hdr phdrs) where
  abbrev io : BlockIo
  io = node_io fs.ide fs.block_size file

  set_up_lem :
      (memory : ℕ → ℕ)
      → (memory' : ℕ → ℕ) × (set_up fs file (map arg_bytes args) memory
          ≡ some (hdr.entry, stack_top - stack_size args, memory'))
        × Built args (stack_top - stack_size args) memory'
        × AreLoaded io ok.device phdrs memory'
  unfolding set_up
  set_up_lem memory =
      let sp = stack_top - stack_size args in
      let fits = ok.fits in
      let n = length args in
      let (memory1, e1, (words, texts), kept1) = build_stack_lem args memory ok.fits in
      let (memory2, e2, loaded, kept2) =
        load_lem io ok.device memory1 hdr phdrs ok.inside ok.header ok.number ok.headers ok.segments
          ok.apart in
      let same : (a k : ℕ)
          → sp ≤ a
          → a + k ≤ stack_top
          → bytes_at memory2 a k ≡ bytes_at memory1 a k =
        λ a k lo hi.
          kept2 a k (IsApart-part sp (stack_size args) a k phdrs lo (omega arith) ok.stack) in
      (
        memory2,
        rw e1 (rw e2 refl),
        (
          same sp (4 * (n + 3)) (omega arith) (omega arith) ∙ words,
          Hold-Kept memory1 memory2 (sp + 4 * (n + 3)) (sp + 4 * (n + 3)) stack_top
              (places args stack_top) args (omega arith) (λ a k lo hi. same a k (omega arith) hi)
              texts,
        ),
        loaded,
      )

  -- A path that leads to a file with a program that is in order. Then `exec` does not return: it goes
  -- to the program's entry point, with a stack that holds the number of the arguments, the address of
  -- their addresses, these, a null word, and behind them the texts that they point to, each with its
  -- NUL, and with every segment in the memory.
  pub exec_lem :
      (path rest : List ℕ) (memory : ℕ → ℕ)
      → IsText path
      → walk fs (some root) (parts_of path) ≡ some (some file)
      → is_file file.info ≡ true
      → (memory' : ℕ → ℕ) × (exec fs root (path ++ 0 ∷ rest) (map arg_bytes args) memory
          ≡ switch_to_user hdr.entry (stack_top - stack_size args) memory')
        × Built args (stack_top - stack_size args) memory'
        × AreLoaded io ok.device phdrs memory'
  unfolding exec exec_file enter
  exec_lem path rest memory text there is =
      let (memory', e, built, loaded) = set_up_lem memory in
      let got = read_object_lem io ok.device 0 52 ok.inside in
      (
        memory',
        rw (exec, find_lem fs (some root) path rest text ∙ there)
            (rw (exec_file, is, got)
              (rw (ok.header, check_header_lem hdr ok.program) (rw (enter, e) refl))),
        built,
        loaded,
      )
