-- ===== src/Kernel/Node/Blocks.antt =====
-- A node as a device: its bytes are those of the blocks that its pointers name.
use os_shell.Common.{
  ℕ, zero, suc, [], ◌+◌, ◌-◌, ◌*◌, ◌/◌, ◌%◌, ◌^◌, ◌<◌, ◌≤◌, ◌≡◌, refl, Option, none, some, List,
  arith, ap, sym, ◌∙◌, length, ltb, if◌then◌else◌, Bool-cases, inl, inr, get_elem?-get_or, get_or,
  lt→ltb, ltb→lt,
}
use native.Mathlib.Nat.{div-add-mod', mod-lt}
use os_shell.Common.Text.{word32_at}
use os_shell.Kernel.BlockIo.{BlockIo, IsDevice, block}
use os_shell.Kernel.BlockIo.Blocks.{content, slice, length-slice}
use os_shell.Kernel.BlockIo.Objects.{read_object_lem}
use os_shell.Kernel.Node.{Node, NodeData, node_io, block_index, read_block, wrap}

-- The pointer to block `index`, as the format of the file system has it: one of the first twelve,
-- or in the block of pointers.
abbrev pub pointer : BlockIo → ℕ → NodeData → ℕ → ℕ
pointer ide block_size info index =
    if ltb index 12
    then get_or info.pointers index 0
    else word32_at (slice ide (get_or info.pointers 12 0 * block_size + (index - 12) * 4) 4) 0

lt_of_blocks : (a b n : ℕ) → a * n < b * n → a < b
lt_of_blocks a b n h = grind arith

get_or-slice : (d : BlockIo) (o k i : ℕ) → i < k → get_or (slice d o k) i 0 ≡ content d (o + i)
get_or-slice d o zero i h = absurd (omega arith)
get_or-slice d o (suc k) zero h = ap (content d) (omega arith)
get_or-slice d o (suc k) (suc i) h =
    get_or-slice d (o + 1) k i (omega arith) ∙ ap (content d) (omega arith)

module _ (ide : BlockIo) (disk : IsDevice ide) (block_size : ℕ) where
  -- The node is within the reach of direct and singly indirect blocks, and these are on the disk.
  pub record IsReachable (info : NodeData) : Type 0 where
    pub positive : 0 < block_size
    pub fits : info.size_low < 2 ^ 32
    pub pointers : length info.pointers ≡ 15
    pub sectors : info.size_low ≤ info.n_sectors / (block_size / 512) * block_size
    pub single : info.size_low ≤ (12 + block_size / 4) * block_size
    pub indirect : get_or info.pointers 12 0 * block_size + block_size ≤ ide.size_in_bytes
    pub blocks :
        (index : ℕ)
        → index * block_size < info.size_low
        → pointer ide block_size info index * block_size + block_size ≤ ide.size_in_bytes

  module _ (info : NodeData) (ok : IsReachable info) where
    block_index_lem :
        (index : ℕ)
        → index * block_size < info.size_low
        → block_index ide block_size info index ≡ some (pointer ide block_size info index)
    unfolding block_index
    block_index_lem index h =
        let size = disk.fits in
        let in_sectors : index < info.n_sectors / (block_size / 512) =
          lt_of_blocks index _ block_size (omega (arith, ok.sectors)) in
        let in_single : index < 12 + block_size / 4 =
          lt_of_blocks index _ block_size (omega (arith, ok.single)) in
        rw (lt→ltb _ _ in_sectors) (elim (Bool-cases (ltb index 12)) [
          | inl e ↦
              rw e
                (get_elem?-get_or info.pointers index 0 (omega (arith, ltb→lt _ _ e, ok.pointers)))
          | inr e ↦
              let w : wrap (get_or info.pointers 12 0 * block_size + (index - 12) * 4)
                  ≡ get_or info.pointers 12 0 * block_size + (index - 12) * 4 =
                omega (arith, ok.indirect, disk.fits, in_single) in
              rw
                (
                  e,
                  lt→ltb _ _ in_single,
                  get_elem?-get_or info.pointers 12 0 (omega (arith, ok.pointers)),
                )
                (rw w (
                  rw
                    (read_object_lem ide disk
                      (get_or info.pointers 12 0 * block_size + (index - 12) * 4) 4
                      (omega (arith, ok.indirect, in_single)))
                    refl))
        ])

    read_block_lem :
        (index : ℕ)
        → index * block_size < info.size_low
        → read_block ide block_size info index
          ≡ some (slice ide (pointer ide block_size info index * block_size) block_size)
    unfolding read_block
    read_block_lem index h =
        let b = pointer ide block_size info index in
        let on_disk = ok.blocks index h in
        let w : wrap (b * block_size) ≡ b * block_size = omega (arith, disk.fits, ok.positive) in
        rw (block_index_lem index h)
          (rw w (read_object_lem ide disk (b * block_size) block_size on_disk))

  module _ (node : Node) (ok : IsReachable node.info) where
    block_lem :
        (index : ℕ)
        → index * block_size < node.info.size_low
        → block (node_io ide block_size node) index
          ≡ slice ide (pointer ide block_size node.info index * block_size) block_size
    block_lem index h =
        ap (λ (o : Option (List ℕ)). elim o [ none ↦ [] | some bytes ↦ bytes ])
          (read_block_lem node.info ok index h)

    node_io-IsDevice : IsDevice (node_io ide block_size node)
    node_io-IsDevice = record {
      positive = ok.positive;
      there = λ n h. read_block_lem node.info ok n h ∙ ap some (sym (block_lem n h));
      whole = λ n h. ap length (block_lem n h) ∙ length-slice ide _ block_size;
      fits = ok.fits;
    }

    -- A node whose size is within its sectors and within the reach of the twelve direct and the singly
    -- indirect blocks, all of them and the block of pointers on the disk, is a device: every block
    -- below its size can be read. Its byte `i` is the byte at `i` modulo the block size in the block
    -- that its pointers name for it.
    pub node_io_lem :
        IsDevice (node_io ide block_size node)
        × ((i : ℕ)
            → i < node.info.size_low
            → content (node_io ide block_size node) i
              ≡ content ide
                  (pointer ide block_size node.info (i / block_size) * block_size + i % block_size))
    node_io_lem = (
      node_io-IsDevice,
      λ i h.
          let at : i / block_size * block_size < node.info.size_low =
            omega (arith, div-add-mod' i block_size) in
          ap (λ l. get_or l (i % block_size) 0) (block_lem (i / block_size) at)
          ∙ get_or-slice ide _ block_size (i % block_size) (mod-lt i ok.positive),
    )
