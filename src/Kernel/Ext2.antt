-- ===== src/Kernel/Ext2.antt =====
-- The file system, `Ext2` of kernel/ext2.h and kernel/ext2.cc: mounting, nodes by number and paths.
-- A failed assertion, a division by zero and a shift by 32 bits or more are `none`.
pub mod Parts
pub mod Paths
use os_shell.Common.{
  ℕ, zero, suc, ◌+◌, ◌-◌, ◌*◌, ◌/◌, ◌%◌, ◌^◌, Bool, not, ◌||◌, Option, none, some, List, [], ◌∷◌,
  ◌++◌, ltb, leb, ◌==◌, if◌then◌else◌, get_elem?, get_or, take, drop, true, false, length, ◌>>=◌,
  ◌>>◌, assert,
}
use os_shell.Common.Text.{cstr, word16_at, word32_at}
use os_shell.Kernel.BlockIo.{BlockIo, read_object}
use os_shell.Kernel.Node.{Node, node_data, node_data_size, find_entry, wrap}

pub record SuperBlock : Type 0 where
  pub inodes_count : ℕ
  pub blocks_count : ℕ
  pub reserved_blocks_count : ℕ
  pub free_blocks_count : ℕ
  pub free_inodes_count : ℕ
  pub first_data_block : ℕ
  pub log_block_size : ℕ
  pub log_frag_size : ℕ
  pub blocks_per_group : ℕ
  pub frags_per_group : ℕ
  pub inodes_per_group : ℕ
  pub mtime : ℕ
  pub wtime : ℕ
  pub mnt_count : ℕ
  pub max_mnt_count : ℕ
  pub magic : ℕ
  pub state : ℕ
  pub errors : ℕ
  pub minor_rev_level : ℕ
  pub lastcheck : ℕ
  pub checkinterval : ℕ
  pub creator_os : ℕ
  pub rev_level : ℕ
  pub def_resuid : ℕ
  pub def_resgid : ℕ
  pub first_inode : ℕ
  pub inode_size : ℕ
  pub block_group_nr : ℕ
  pub feature_compat : ℕ
  pub feature_incompat : ℕ
  pub feature_ro_compat : ℕ
  pub uuid : List ℕ
  pub volume_name : List ℕ
  pub algo_bitmap : ℕ

abbrev super_block_size : ℕ
super_block_size = 140

-- The struct that 140 bytes are.
super_block : List ℕ → SuperBlock
super_block s = record {
  inodes_count = word32_at s 0;
  blocks_count = word32_at s 4;
  reserved_blocks_count = word32_at s 8;
  free_blocks_count = word32_at s 12;
  free_inodes_count = word32_at s 16;
  first_data_block = word32_at s 20;
  log_block_size = word32_at s 24;
  log_frag_size = word32_at s 28;
  blocks_per_group = word32_at s 32;
  frags_per_group = word32_at s 36;
  inodes_per_group = word32_at s 40;
  mtime = word32_at s 44;
  wtime = word32_at s 48;
  mnt_count = word16_at s 52;
  max_mnt_count = word16_at s 54;
  magic = word16_at s 56;
  state = word16_at s 58;
  errors = word16_at s 60;
  minor_rev_level = word16_at s 62;
  lastcheck = word32_at s 64;
  checkinterval = word32_at s 68;
  creator_os = word32_at s 72;
  rev_level = word32_at s 76;
  def_resuid = word16_at s 80;
  def_resgid = word16_at s 82;
  first_inode = word32_at s 84;
  inode_size = word16_at s 88;
  block_group_nr = word16_at s 90;
  feature_compat = word32_at s 92;
  feature_incompat = word32_at s 96;
  feature_ro_compat = word32_at s 100;
  uuid = take 16 (drop 104 s);
  volume_name = take 16 (drop 120 s);
  algo_bitmap = word32_at s 136;
}

pub record BlockGroup : Type 0 where
  pub block_bitmap : ℕ
  pub inode_bitmap : ℕ
  pub inode_table : ℕ
  pub free_blocks_count : ℕ
  pub free_inodes_count : ℕ
  pub used_dirs_count : ℕ
  pub pad : ℕ
  pub reserved : List ℕ

abbrev block_group_size : ℕ
block_group_size = 32

-- The struct that stands from byte `i` on.
block_group : List ℕ → ℕ → BlockGroup
block_group s i = record {
  block_bitmap = word32_at s i;
  inode_bitmap = word32_at s (i + 4);
  inode_table = word32_at s (i + 8);
  free_blocks_count = word16_at s (i + 12);
  free_inodes_count = word16_at s (i + 14);
  used_dirs_count = word16_at s (i + 16);
  pad = word16_at s (i + 18);
  reserved = take 12 (drop (i + 20) s);
}

-- The loop that keeps the inode tables: `n` groups, from group `i` on.
inode_tables_from : ℕ → ℕ → List ℕ → List ℕ
unfolding block_group
inode_tables_from zero i s = []
inode_tables_from (suc n) i s =
    (block_group s (i * block_group_size)).inode_table ∷ inode_tables_from n (i + 1) s

pub record Ext2 : Type 0 where
  pub ide : BlockIo
  pub block_size : ℕ
  pub number_of_nodes : ℕ
  pub number_of_blocks : ℕ
  pub inode_size : ℕ
  pub n_groups : ℕ
  pub inode_tables : List ℕ
  pub inodes_per_group : ℕ

-- The size that `1 << (log_block_size + 10)` is.
shifted : ℕ → Option ℕ
shifted log = if ltb log 32 then some (2 ^ log) else none

unfoldable pub get_node : Ext2 → ℕ → Option Node
get_node fs number = do
  assert (ltb 0 number)
  assert (leb number fs.number_of_nodes)
  let index = number - 1
  assert (not (fs.inodes_per_group == 0))
  let group_index = index / fs.inodes_per_group
  assert (ltb group_index fs.n_groups)
  let index_in_group = index % fs.inodes_per_group
  table_base ← get_elem? fs.inode_tables group_index
  assert (leb table_base fs.number_of_blocks)
  let node_offset = wrap (table_base * fs.block_size + index_in_group * fs.inode_size)
  info ← read_object fs.ide node_offset node_data_size
  some (record { number = number; info = node_data info })

-- The constructor: the file system and its field `root`.
pub mount : BlockIo → Option (Ext2 × Node)
unfolding super_block inode_tables_from shifted
mount ide = do
  sb_bytes ← read_object ide 1024 super_block_size
  let sb = super_block sb_bytes
  block_size ← shifted (wrap (sb.log_block_size + 10))
  assert (not (sb.blocks_per_group == 0))
  let n_groups = wrap (sb.blocks_count + sb.blocks_per_group + 2 ^ 32 - 1) / sb.blocks_per_group
  assert (leb sb.blocks_count (wrap (n_groups * sb.blocks_per_group)))
  let super_block_number = 1024 / block_size
  let group_table_number = super_block_number + 1
  let group_table_size = wrap (block_group_size * n_groups)
  group_table ← read_object ide (wrap (group_table_number * block_size)) group_table_size
  let fs : Ext2 = record {
    ide = ide;
    block_size = block_size;
    number_of_nodes = sb.inodes_count;
    number_of_blocks = sb.blocks_count;
    inode_size = sb.inode_size;
    n_groups = n_groups;
    inode_tables = inode_tables_from n_groups 0 group_table;
    inodes_per_group = sb.inodes_per_group;
  }
  root ← get_node fs 2
  some (fs, root)

-- `while (path[idx] == '/') idx++;`
pub skip_slashes : List ℕ → Option (List ℕ)
skip_slashes [] = none
skip_slashes (c ∷ path) = if c == b'/' then skip_slashes path else some (c ∷ path)

-- The loop that copies a part of the path, of which `i` bytes are copied already: the rest of the
-- part, and of the path.
pub copy_part : ℕ → List ℕ → Option (List ℕ × List ℕ)
copy_part i [] = none
copy_part i (c ∷ path) =
    if c == 0 || c == b'/'
    then some ([], c ∷ path)
    else (do assert (ltb i 256); rest ← copy_part (i + 1) path; some (c ∷ rest.0, rest.1))

module _ (fs : Ext2) where
  -- One part of a path from a node: the inner `none` is the null reference.
  unfoldable pub find_part : Node → List ℕ → Option (Option Node)
  find_part current part = do
    number ← find_entry fs.ide fs.block_size (cstr part) current
    if number == 0 then some none else (do node ← get_node fs number; some (some node))

  -- A round behind the slashes; `again` is the loop.
  pub find_round :
      (Option Node → List ℕ → Option (Option Node)) → Option Node → List ℕ → Option (Option Node)
  find_round again none path = some none
  find_round again (some node) [] = none
  find_round again (some node) (c ∷ path) = elim (c == 0) [
    | true ↦ some (some node)
    | false ↦ do
      part ← copy_part 0 (c ∷ path)
      next ← find_part node part.0
      elim next [ none ↦ some none | some n ↦ again (some n) part.1 ]
  ]

  pub find_loop : ℕ → Option Node → List ℕ → Option (Option Node)
  unfolding find_round
  find_loop zero current path = none
  find_loop (suc rounds) current path = do
    path' ← skip_slashes path
    find_round (find_loop rounds) current path'

  -- A round takes at least a byte of the path.
  pub find : Option Node → List ℕ → Option (Option Node)
  unfolding find_loop
  find current path = find_loop (suc (length path)) current path
