-- ===== src/Kernel/Elf.antt =====
-- Programs on the disk: kernel/elf.h and kernel/elf.cc. `kind` is the field `type`, and `magic` the
-- four fields that a header begins with.
pub mod Segments
use os_shell.Common.{
  ℕ, zero, suc, ◌+◌, ◌-◌, Option, none, some, List, ltb, ◌==◌, if◌then◌else◌, get_or, take,
  replicate, true, false, ◌>>=◌,
}
use os_shell.Common.Text.{word16_at, word32_at, store}
use os_shell.Kernel.BlockIo.{BlockIo, Transfer, bytes, failed, panic, read_object, read_all}
use os_shell.Kernel.Node.{wrap}

pub record ElfHeader : Type 0 where
  pub magic : List ℕ
  pub cls : ℕ
  pub encoding : ℕ
  pub header_version : ℕ
  pub abi : ℕ
  pub abi_version : ℕ
  pub kind : ℕ
  pub machine : ℕ
  pub version : ℕ
  pub entry : ℕ
  pub phoff : ℕ
  pub shoff : ℕ
  pub flags : ℕ
  pub ehsize : ℕ
  pub phentsize : ℕ
  pub phnum : ℕ
  pub shentsize : ℕ
  pub shnum : ℕ
  pub shstrndx : ℕ

abbrev pub elf_header_size : ℕ
elf_header_size = 52

-- The struct that 52 bytes are.
unfoldable pub elf_header : List ℕ → ElfHeader
elf_header s = record {
  magic = take 4 s;
  cls = get_or s 4 0;
  encoding = get_or s 5 0;
  header_version = get_or s 6 0;
  abi = get_or s 7 0;
  abi_version = get_or s 8 0;
  kind = word16_at s 16;
  machine = word16_at s 18;
  version = word32_at s 20;
  entry = word32_at s 24;
  phoff = word32_at s 28;
  shoff = word32_at s 32;
  flags = word32_at s 36;
  ehsize = word16_at s 40;
  phentsize = word16_at s 42;
  phnum = word16_at s 44;
  shentsize = word16_at s 46;
  shnum = word16_at s 48;
  shstrndx = word16_at s 50;
}

pub record ProgramHeader : Type 0 where
  pub kind : ℕ
  pub offset : ℕ
  pub vaddr : ℕ
  pub paddr : ℕ
  pub filesz : ℕ
  pub memsz : ℕ
  pub flags : ℕ
  pub align : ℕ

abbrev pub program_header_size : ℕ
program_header_size = 32

-- The struct that 32 bytes are.
unfoldable pub program_header : List ℕ → ProgramHeader
program_header s = record {
  kind = word32_at s 0;
  offset = word32_at s 4;
  vaddr = word32_at s 8;
  paddr = word32_at s 12;
  filesz = word32_at s 16;
  memsz = word32_at s 20;
  flags = word32_at s 24;
  align = word32_at s 28;
}

-- The bytes that `read_all` puts into the memory; its result is not looked at.
abbrev read_into : (ℕ → ℕ) → ℕ → Option Transfer → Option (ℕ → ℕ)
read_into memory p (some (bytes got)) = some (store memory p got)
read_into memory p (some failed) = some memory
read_into memory p (some panic) = none
read_into memory p none = none

module _ (file : BlockIo) where
  -- A segment of type 1 in the memory. Where a segment is larger in the file than in the memory the
  -- size of what is cleared wraps around: that is a fault.
  unfoldable pub load_segment : ProgramHeader → (ℕ → ℕ) → Option (ℕ → ℕ)
  load_segment phdr memory =
      if phdr.kind == 1
      then (do
        memory' ← read_into memory phdr.vaddr (read_all file phdr.offset phdr.filesz)
        if ltb phdr.memsz phdr.filesz
            then none
            else some
                (store memory' (phdr.vaddr + phdr.filesz) (replicate (phdr.memsz - phdr.filesz) 0)))
      else some memory

  -- `n` program headers, from `hoff` on.
  unfoldable pub load_loop : ℕ → ℕ → ℕ → (ℕ → ℕ) → Option (ℕ → ℕ)
  unfolding load_segment
  load_loop zero hoff phentsize memory = some memory
  load_loop (suc n) hoff phentsize memory = do
    got ← read_object file hoff program_header_size
    memory' ← load_segment (program_header got) memory
    load_loop n (wrap (hoff + phentsize)) phentsize memory'

  -- The entry point, and the memory.
  unfoldable pub load : (ℕ → ℕ) → Option (ℕ × (ℕ → ℕ))
  unfolding load_loop
  load memory = do
    got ← read_object file 0 elf_header_size
    let hdr = elf_header got
    memory' ← load_loop hdr.phnum hdr.phoff hdr.phentsize memory
    some (hdr.entry, memory')
