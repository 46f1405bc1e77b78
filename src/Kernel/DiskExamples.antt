-- ===== src/Kernel/DiskExamples.antt =====
-- The theorems on nodes, paths, files and system calls at a small disk: a directory that holds a file
-- and a symbolic link to it.
use os_shell.Common.{
  ℕ, ◌+◌, ◌*◌, ◌/◌, ◌%◌, ◌<◌, ◌≤◌, ◌≡◌, refl, some, List, [], ◌∷◌, ◌++◌, arith, ◌==◌, Bool-cases,
  inl, inr, length, replicate, if◌then◌else◌, zero, suc,
}
use os_shell.Common.Text.{bytes16, bytes32, cstr}
use os_shell.Kernel.BlockIo.{BlockIo, IsDevice, read, read_all_loop, read_all, read_object}
use os_shell.Kernel.BlockIo.Blocks.{content}
use os_shell.Kernel.Node.{
  Node, node_data, words_at, node_io, block_index, read_block, find_entry, get_symbol,
}
use os_shell.Kernel.Node.Blocks.{pointer, IsReachable, node_io_lem}
use os_shell.Kernel.Node.Entries.{Entry, IsDirectory}
use os_shell.Kernel.Node.Names.{Lists, find_entry_lem}
use os_shell.Kernel.Node.Symbols.{get_symbol_lem}
use os_shell.Kernel.Ext2.{Ext2, find}
use os_shell.Kernel.Ext2.Parts.{walk, parts_of}
use os_shell.Kernel.Ext2.Paths.{find_lem}
use os_shell.Kernel.File.{Devices}

abbrev pub node_bytes : ℕ → ℕ → List ℕ → List ℕ
node_bytes mode size pointers =
    bytes16 mode
    ++ (0 ∷ 0 ∷ [])
    ++ bytes32 size
    ++ replicate 16 0
    ++ (0 ∷ 0 ∷ 1 ∷ 0 ∷ [])
    ++ bytes32 2
    ++ replicate 8 0
    ++ pointers
    ++ replicate 84 0

abbrev pub root_bytes : List ℕ
root_bytes = node_bytes 0x4000 24 (bytes32 5)

abbrev pub file_bytes : List ℕ
file_bytes = node_bytes 0x8000 5 (bytes32 6)

abbrev pub link_bytes : List ℕ
link_bytes = node_bytes 0xA000 1 (b'a' ∷ 0 ∷ 0 ∷ 0 ∷ [])

abbrev two_entries : List Entry
two_entries =
    record { inode = 3; file_type = 1; name = b'a' ∷ []; unused = 0 ∷ 0 ∷ 0 ∷ [] }
    ∷ record { inode = 4; file_type = 7; name = b'l' ∷ []; unused = 0 ∷ 0 ∷ 0 ∷ [] }
    ∷ []

abbrev pub entry_bytes : List ℕ
entry_bytes =
    3 ∷ 0 ∷ 0 ∷ 0 ∷ 12 ∷ 0 ∷ 1 ∷ 1 ∷ b'a' ∷ 0 ∷ 0 ∷ 0 ∷ 4 ∷ 0 ∷ 0 ∷ 0 ∷ 12 ∷ 0 ∷ 1 ∷ 7 ∷ b'l' ∷ 0
    ∷ 0 ∷ 0 ∷ []

abbrev pub hello : List ℕ
hello = b'h' ∷ b'e' ∷ b'l' ∷ b'l' ∷ b'o' ∷ []

-- Blocks of 1024 bytes: the nodes in block 3, the directory in block 5 and the file in block 6.
abbrev pub disk_block : ℕ → List ℕ
disk_block n =
    if n == 3
    then replicate 128 0 ++ root_bytes ++ file_bytes ++ link_bytes ++ replicate 512 0
    else if n == 5
    then entry_bytes ++ replicate 1000 0
    else if n == 6
    then hello ++ replicate 1019 0
    else replicate 1024 0

abbrev pub disk : BlockIo
disk = record { block_size = 1024; size_in_bytes = 16384; read_block = λ n. some (disk_block n) }

disk_block-whole : (n : ℕ) → length (disk_block n) ≡ 1024
disk_block-whole n = elim (Bool-cases (n == 3)) [
  | inl e ↦ rw e
  | inr e ↦ elim (Bool-cases (n == 5)) [
    | inl f ↦ rw (e, f)
    | inr f ↦ elim (Bool-cases (n == 6)) [ inl g ↦ rw (e, f, g) | inr g ↦ rw (e, f, g) ]
  ]
]

disk-IsDevice : IsDevice disk
disk-IsDevice = record {
  positive = omega arith;
  there = λ n h. refl;
  whole = λ n h. disk_block-whole n;
  fits = omega arith;
}

abbrev pub root_node : Node
root_node = record { number = 2; info = node_data root_bytes }

abbrev pub file_node : Node
file_node = record { number = 3; info = node_data file_bytes }

abbrev pub link_node : Node
link_node = record { number = 4; info = node_data link_bytes }

file_blocks :
    (index : ℕ)
    → index * 1024 < file_node.info.size_low
    → pointer disk 1024 file_node.info index * 1024 + 1024 ≤ disk.size_in_bytes
unfolding node_data words_at
file_blocks zero h = omega arith
file_blocks (suc index) h = absurd (omega arith)

file_node-IsReachable : IsReachable disk disk-IsDevice 1024 file_node.info
unfolding node_data words_at
file_node-IsReachable = record {
  positive = omega arith;
  fits = omega arith;
  pointers = refl;
  sectors = omega arith;
  single = omega arith;
  indirect = omega arith;
  blocks = file_blocks;
}

node_io_lem_example :
    IsDevice (node_io disk 1024 file_node)
    × ((i : ℕ)
        → i < file_node.info.size_low
        → content (node_io disk 1024 file_node) i
          ≡ content disk (pointer disk 1024 file_node.info (i / 1024) * 1024 + i % 1024))
node_io_lem_example = node_io_lem disk disk-IsDevice 1024 file_node file_node-IsReachable

root_blocks :
    (index : ℕ)
    → index * 1024 < root_node.info.size_low
    → pointer disk 1024 root_node.info index * 1024 + 1024 ≤ disk.size_in_bytes
unfolding node_data words_at
root_blocks zero h = omega arith
root_blocks (suc index) h = absurd (omega arith)

root_node-IsReachable : IsReachable disk disk-IsDevice 1024 root_node.info
unfolding node_data words_at
root_node-IsReachable = record {
  positive = omega arith;
  fits = omega arith;
  pointers = refl;
  sectors = omega arith;
  single = omega arith;
  indirect = omega arith;
  blocks = root_blocks;
}

pub file-IsDevice : IsDevice (node_io disk 1024 file_node)
file-IsDevice = (node_io_lem disk disk-IsDevice 1024 file_node file_node-IsReachable).0

root-IsDevice : IsDevice (node_io disk 1024 root_node)
root-IsDevice = (node_io_lem disk disk-IsDevice 1024 root_node root_node-IsReachable).0

root-IsDirectory : IsDirectory disk 1024 root_node two_entries
unfolding node_data words_at read_block block_index read_object read_all read_all_loop read
root-IsDirectory = (refl, ground arith, refl, refl)

find_entry_lem_example :
    (number : ℕ) × (find_entry disk 1024 (cstr (b'l' ∷ [])) root_node ≡ some number)
    × Lists (b'l' ∷ []) two_entries number
find_entry_lem_example =
    find_entry_lem (b'l' ∷ []) (omega arith) disk 1024 root_node root-IsDevice two_entries
      root-IsDirectory

abbrev pub small_fs : Ext2
small_fs = record {
  ide = disk;
  block_size = 1024;
  number_of_nodes = 8;
  number_of_blocks = 16;
  inode_size = 128;
  n_groups = 1;
  inode_tables = 3 ∷ [];
  inodes_per_group = 8;
}

abbrev slash_a : List ℕ
slash_a = b'/' ∷ b'a' ∷ []

find_lem_example :
    find small_fs (some root_node) (slash_a ++ 0 ∷ [])
    ≡ walk small_fs (some root_node) (parts_of slash_a)
find_lem_example = find_lem small_fs (some root_node) slash_a [] (omega arith)

abbrev pub no_devices : Devices
no_devices = record { pipes = []; input = []; output = [] }

get_symbol_lem_example : get_symbol disk 1024 link_node ≡ some (b'a' ∷ [])
unfolding node_data words_at
get_symbol_lem_example =
    get_symbol_lem disk 1024 4 link_bytes (omega arith) refl refl (λ h. absurd (omega arith))
