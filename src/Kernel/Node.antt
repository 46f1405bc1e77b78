-- ===== src/Kernel/Node.antt =====
-- Nodes of the file system, `NodeData` and `Node` of kernel/ext2.h and kernel/ext2.cc, over a disk
-- that is any block device.
-- A failed assertion is `none`. Sums and products of `uint32_t` wrap around.
pub mod Blocks
pub mod Entries
pub mod Rounds
pub mod Names
pub mod Symbols
use os_shell.Common.{
  ℕ, zero, suc, ◌+◌, ◌-◌, ◌*◌, ◌/◌, ◌%◌, ◌^◌, Bool, true, false, Option, none, some, List, [], ◌∷◌,
  ◌++◌, ltb, leb, ◌==◌, if◌then◌else◌, get_elem?, get_or, take, drop, length, ◌>>=◌, ◌>>◌, assert,
}
use os_shell.Common.Text.{cstr, word16_at, word32_at, bytes32}
use os_shell.Kernel.BlockIo.{BlockIo, read_object}
use os_shell.Kernel.Libk.{streq}

abbrev pub wrap : ℕ → ℕ
wrap w = w % 2 ^ 32

-- `n` words of 32 bits, from byte `i` on.
unfoldable pub words_at : ℕ → List ℕ → ℕ → List ℕ
words_at zero s i = []
words_at (suc n) s i = word32_at s i ∷ words_at n s (i + 4)

-- `pointers` are direct0 to direct11 and indirect_1 to indirect_3, which stand in a row.
pub record NodeData : Type 0 where
  pub mode : ℕ
  pub uid : ℕ
  pub size_low : ℕ
  pub atime : ℕ
  pub ctime : ℕ
  pub mtime : ℕ
  pub dtime : ℕ
  pub gid : ℕ
  pub n_links : ℕ
  pub n_sectors : ℕ
  pub flags : ℕ
  pub os1 : ℕ
  pub pointers : List ℕ
  pub gen : ℕ
  pub reserved1 : ℕ
  pub reserved2 : ℕ
  pub fragment : ℕ
  pub os2 : List ℕ

abbrev pub node_data_size : ℕ
node_data_size = 128

-- The struct that 128 bytes are.
unfoldable pub node_data : List ℕ → NodeData
unfolding words_at
node_data s = record {
  mode = word16_at s 0;
  uid = word16_at s 2;
  size_low = word32_at s 4;
  atime = word32_at s 8;
  ctime = word32_at s 12;
  mtime = word32_at s 16;
  dtime = word32_at s 20;
  gid = word16_at s 24;
  n_links = word16_at s 26;
  n_sectors = word32_at s 28;
  flags = word32_at s 32;
  os1 = word32_at s 36;
  pointers = words_at 15 s 40;
  gen = word32_at s 100;
  reserved1 = word32_at s 104;
  reserved2 = word32_at s 108;
  fragment = word32_at s 112;
  os2 = take 12 (drop 116 s);
}

abbrev pub get_type : NodeData → ℕ
get_type data' = data'.mode / 2 ^ 12

abbrev pub is_dir : NodeData → Bool
is_dir data' = get_type data' == 4

abbrev pub is_file : NodeData → Bool
is_file data' = get_type data' == 8

abbrev pub is_symlink : NodeData → Bool
is_symlink data' = get_type data' == 0xa

pub record Node : Type 0 where
  pub number : ℕ
  pub info : NodeData

unfoldable pub bytes_of_words : List ℕ → List ℕ
bytes_of_words [] = []
bytes_of_words (w ∷ ws) = bytes32 w ++ bytes_of_words ws

-- What `find` does with an entry.
unfoldable pub find_work : List ℕ → ℕ → List ℕ → ℕ → Option ℕ
find_work name number nm out = do same ← streq name nm; some (if same then number else out)

module _ (ide : BlockIo) (block_size : ℕ) where
  -- Where block `index` of a node stands on the disk.
  unfoldable pub block_index : NodeData → ℕ → Option ℕ
  block_index info index = do
    assert (ltb index (info.n_sectors / (block_size / 512)))
    let refs_per_block = block_size / 4
    if ltb index 12
        then get_elem? info.pointers index
        else if ltb index (12 + refs_per_block)
        then (do
          indirect_1 ← get_elem? info.pointers 12
          entry ← read_object ide (wrap (indirect_1 * block_size + (index - 12) * 4)) 4
          some (word32_at entry 0))
        else none

  unfoldable pub read_block : NodeData → ℕ → Option (List ℕ)
  unfolding block_index
  read_block info index = do
    b ← block_index info index
    read_object ide (wrap (b * block_size)) block_size

  -- A node as a device.
  abbrev pub node_io : Node → BlockIo
  node_io node = record {
    block_size = block_size;
    size_in_bytes = node.info.size_low;
    read_block = read_block node.info;
  }

  -- The name that a symbolic link refers to; up to 60 bytes stand in place of the block pointers.
  unfoldable pub get_symbol : Node → Option (List ℕ)
  unfolding bytes_of_words
  get_symbol node = do
    assert (is_symlink node.info)
    let sz = node.info.size_low
    if leb sz 60
        then some (take sz (bytes_of_words node.info.pointers))
        else read_object (node_io node) 0 sz

  -- The loop over the entries of a directory. `none` is that it does not come back: an assertion fails,
  -- or the rounds run out. Where no offset wraps around, no number of rounds would do then
  -- (Node/Rounds): an entry of size 0 keeps the loop in place for ever.
  unfoldable pub entries_loop {ℓ} :
      {S : Type ℓ} → (ℕ → List ℕ → S → Option S) → Node → ℕ → ℕ → S → Option S
  entries_loop work node zero offset s = none
  entries_loop work node (suc rounds) offset s = elim (ltb offset node.info.size_low) [
    | false ↦ some s
    | true ↦ do
      inode ← read_object (node_io node) offset 4
      total_size ← read_object (node_io node) (wrap (offset + 4)) 2
      name_length ← read_object (node_io node) (wrap (offset + 6)) 1
      name ← read_object (node_io node) (wrap (offset + 8)) (get_or name_length 0 0)
      s' ← work (word32_at inode 0) (cstr name) s
      entries_loop work node rounds (wrap (offset + word16_at total_size 0)) s'
  ]

  unfoldable pub entries {ℓ} : {S : Type ℓ} → (ℕ → List ℕ → S → Option S) → Node → S → Option S
  entries work node s = do
    assert (is_dir node.info)
    entries_loop work node (suc node.info.size_low) 0 s

  -- 0 where the name is not there.
  unfoldable pub find_entry : List ℕ → Node → Option ℕ
  unfolding find_work
  find_entry name node = entries (find_work name) node 0

  pub entry_count : Node → Option ℕ
  entry_count node = do
    assert (is_dir node.info)
    entries (λ number nm count. some (wrap (count + 1))) node 0
