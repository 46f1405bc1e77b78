-- ===== src/Kernel/ProgramExamples.antt =====
-- The theorem on programs at a small one, on a disk like that of the other examples.
use os_shell.Common.{
  ℕ, ◌+◌, ◌-◌, ◌*◌, ◌<◌, ◌≤◌, ◌≡◌, refl, some, List, [], ◌∷◌, ◌++◌, arith, ◌==◌, Bool-cases, inl,
  inr, length, replicate, if◌then◌else◌, zero, suc, map,
}
use os_shell.Kernel.Execl.{exec_from}
use os_shell.Kernel.Execl.Passes.{Calls, exec_from_lem}
use os_shell.Kernel.Sys.{System}
use os_shell.Kernel.SysExamples.{idle_process}
use os_shell.Common.Text.{bytes16, bytes32, store, text_at}
use os_shell.Kernel.BlockIo.{BlockIo, IsDevice, read, read_all_loop, read_all, read_object}
use os_shell.Kernel.DiskExamples.{
  no_devices, node_bytes, root_bytes, root_node, entry_bytes, small_fs,
}
use os_shell.Kernel.Elf.{ElfHeader, ProgramHeader, elf_header, program_header}
use os_shell.Kernel.Elf.Segments.{AreLoaded}
use os_shell.Kernel.Exec.{exec, stack_top, switch_to_user}
use os_shell.Kernel.Exec.Runs.{Runnable, exec_lem}
use os_shell.Kernel.Exec.Strings.{Argument, arg_bytes}
use os_shell.Kernel.Exec.Stack.{Built, stack_size}
use os_shell.Kernel.Ext2.{Ext2, find_part, get_node}
use os_shell.Kernel.Ext2.Parts.{walk, parts_of}
use os_shell.Kernel.Libk.{streq}
use os_shell.Kernel.Node.{
  Node, node_data, words_at, node_io, block_index, read_block, entries_loop, entries, find_work,
  find_entry,
}
use os_shell.Kernel.Node.Blocks.{pointer, IsReachable, node_io_lem}

-- A header, a program header, and the segment: four bytes, to be followed by four zeros.
abbrev program_bytes : List ℕ
program_bytes =
    (0x7F ∷ b'E' ∷ b'L' ∷ b'F' ∷ 1 ∷ 1 ∷ 1 ∷ 0 ∷ 0 ∷ [])
    ++ replicate 7 0
    ++ bytes16 2
    ++ bytes16 3
    ++ bytes32 1
    ++ bytes32 0x80000000
    ++ bytes32 52
    ++ bytes32 0
    ++ bytes32 0
    ++ bytes16 52
    ++ bytes16 32
    ++ bytes16 1
    ++ replicate 6 0
    ++ bytes32 1
    ++ bytes32 84
    ++ bytes32 0x80000000
    ++ bytes32 0
    ++ bytes32 4
    ++ bytes32 8
    ++ bytes32 5
    ++ bytes32 4
    ++ (0xEB ∷ 0xFE ∷ 0x90 ∷ 0x90 ∷ [])

abbrev program_node_bytes : List ℕ
program_node_bytes = node_bytes 0x8000 88 (bytes32 6)

abbrev program_block : ℕ → List ℕ
program_block n =
    if n == 3
    then replicate 128 0 ++ root_bytes ++ program_node_bytes ++ replicate 640 0
    else if n == 5
    then entry_bytes ++ replicate 1000 0
    else if n == 6
    then program_bytes ++ replicate 936 0
    else replicate 1024 0

abbrev program_disk : BlockIo
program_disk = record {
  block_size = 1024;
  size_in_bytes = 16384;
  read_block = λ n. some (program_block n);
}

program_block-whole : (n : ℕ) → length (program_block n) ≡ 1024
program_block-whole n = elim (Bool-cases (n == 3)) [
  | inl e ↦ rw e
  | inr e ↦ elim (Bool-cases (n == 5)) [
    | inl f ↦ rw (e, f)
    | inr f ↦ elim (Bool-cases (n == 6)) [ inl g ↦ rw (e, f, g) | inr g ↦ rw (e, f, g) ]
  ]
]

program_disk-IsDevice : IsDevice program_disk
program_disk-IsDevice = record {
  positive = omega arith;
  there = λ n h. refl;
  whole = λ n h. program_block-whole n;
  fits = omega arith;
}

abbrev program_fs : Ext2
program_fs = record small_fs { ide = program_disk }

abbrev program_node : Node
program_node = record { number = 3; info = node_data program_node_bytes }

program_blocks :
    (index : ℕ)
    → index * 1024 < program_node.info.size_low
    → pointer program_disk 1024 program_node.info index * 1024 + 1024 ≤ program_disk.size_in_bytes
unfolding node_data words_at
program_blocks zero h = omega arith
program_blocks (suc index) h = absurd (omega arith)

program_node-IsReachable : IsReachable program_disk program_disk-IsDevice 1024 program_node.info
unfolding node_data words_at
program_node-IsReachable = record {
  positive = omega arith;
  fits = omega arith;
  pointers = refl;
  sectors = omega arith;
  single = omega arith;
  indirect = omega arith;
  blocks = program_blocks;
}

abbrev two_args : List Argument
two_args =
    record {
      text = b's' ∷ b'h' ∷ [];
      rest = replicate 8 0;
      is_text = omega arith;
      room = omega arith;
    }
    ∷ record {
      text = b'-' ∷ b'c' ∷ b'x' ∷ [];
      rest = replicate 8 0;
      is_text = omega arith;
      room = omega arith;
    }
    ∷ []

abbrev small_header : ElfHeader
small_header = record {
  magic = 0x7F ∷ b'E' ∷ b'L' ∷ b'F' ∷ [];
  cls = 1;
  encoding = 1;
  header_version = 1;
  abi = 0;
  abi_version = 0;
  kind = 2;
  machine = 3;
  version = 1;
  entry = 0x80000000;
  phoff = 52;
  shoff = 0;
  flags = 0;
  ehsize = 52;
  phentsize = 32;
  phnum = 1;
  shentsize = 0;
  shnum = 0;
  shstrndx = 0;
}

abbrev small_segment : ProgramHeader
small_segment = record {
  kind = 1;
  offset = 84;
  vaddr = 0x80000000;
  paddr = 0;
  filesz = 4;
  memsz = 8;
  flags = 5;
  align = 4;
}

program-Runnable :
    Runnable
      (node_io program_fs.ide program_fs.block_size program_node)
      two_args
      small_header
      (small_segment ∷ [])
unfolding node_data words_at read_block block_index read_object read_all read_all_loop read
    elf_header program_header
program-Runnable = record {
  device =
      (node_io_lem program_disk program_disk-IsDevice 1024 program_node program_node-IsReachable).0;
  inside = omega arith;
  header = refl;
  program = record {
    magic = refl;
    encoding = refl;
    cls = refl;
    abi = refl;
    kind = refl;
    version = refl;
    phoff = λ e. absurd (omega arith);
  };
  number = refl;
  headers = (omega arith, refl, tt);
  segments = (λ e. (omega arith, omega arith), tt);
  apart = (λ e. tt, tt);
  fits = omega arith;
  stack = (λ e. inr (omega arith), tt);
}

exec_lem_example :
    (memory' : ℕ → ℕ) × (exec program_fs root_node
        (b'a' ∷ [] ++ 0 ∷ [])
        (map arg_bytes two_args)
        (λ a. 0)
      ≡ switch_to_user 0x80000000 (stack_top - stack_size two_args) memory')
    × Built two_args (stack_top - stack_size two_args) memory'
    × AreLoaded
        (node_io program_fs.ide program_fs.block_size program_node)
        program-Runnable.device
        (small_segment ∷ [])
        memory'
unfolding walk parts_of find_part find_entry entries entries_loop find_work streq get_node node_data
    words_at read_block block_index read_object read_all read_all_loop read
exec_lem_example =
    exec_lem program_fs root_node program_node two_args small_header (small_segment ∷ [])
      program-Runnable (b'a' ∷ []) [] (λ a. 0) (omega arith) refl refl

-- A call of execl at 0x80001000 with the path "a" and these arguments.
abbrev calling : System
calling = record {
  fs = program_fs;
  root = root_node;
  process = idle_process;
  files = [];
  sems = [];
  devices = no_devices;
  memory =
      store
        (store
          (store
            (store (λ a. 0) 0x80001004
              (bytes32 0x80002000 ++ bytes32 0x80002010 ++ bytes32 0x80002020))
            0x80002000 (b'a' ∷ []))
          0x80002010 (b's' ∷ b'h' ∷ []))
        0x80002020 (b'-' ∷ b'c' ∷ b'x' ∷ []);
  ready = [];
}

calling-Calls :
    Calls (λ m a. 0) (replicate 8 0) calling 2 0x80001000 (b'a' ∷ []) two_args program_node
unfolding walk parts_of find_part find_entry entries entries_loop find_work streq get_node node_data
    words_at read_block block_index read_object read_all read_all_loop read text_at
calling-Calls = record {
  is_text = omega arith;
  path_at = refl;
  args_at =
      ((λ e. absurd (omega arith)), refl, refl, ((λ e. absurd (omega arith)), refl, refl, refl));
  before = λ e. absurd (omega arith);
  there = refl;
  is = refl;
}

exec_from_lem_example :
    (memory' : ℕ → ℕ) × (exec_from (λ m a. 0) (replicate 8 0) 3 2 0x80001000 calling
      ≡ switch_to_user 0x80000000 (stack_top - stack_size two_args) memory')
    × Built two_args (stack_top - stack_size two_args) memory'
    × AreLoaded
        (node_io program_fs.ide program_fs.block_size program_node)
        program-Runnable.device
        (small_segment ∷ [])
        memory'
exec_from_lem_example =
    exec_from_lem (λ m a. 0) (replicate 8 0) calling 3 2 0x80001000 (b'a' ∷ []) two_args
      program_node small_header (small_segment ∷ []) (omega arith) (omega arith) calling-Calls
      program-Runnable
