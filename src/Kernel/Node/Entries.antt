-- ===== src/Kernel/Node/Entries.antt =====
-- The entries of a directory.
use os_shell.Common.{
  ℕ, zero, suc, ◌+◌, ◌^◌, ◌<◌, ◌≡◌, refl, Option, some, List, [], ◌∷◌, ◌++◌, true, false, arith, ap,
  sym, ◌∙◌, length, length-append, All, ◌>>=◌, ltb, Option-cases, inl, inr,
}
use os_shell.Common.Text.{IsText, cstr, bytes16, bytes32, word16_at, word32_at}
use os_shell.Kernel.BlockIo.{BlockIo, IsDevice}
use os_shell.Kernel.BlockIo.Blocks.{slice}
use os_shell.Kernel.BlockIo.Objects.{read_object_lem, slice_front, slice_back}
use os_shell.Kernel.Node.{Node, node_io, entries_loop, entries, is_dir, wrap}

-- An entry as it stands on the disk, with unused bytes behind its name.
pub record Entry : Type 0 where
  pub inode : ℕ
  pub file_type : ℕ
  pub name : List ℕ
  pub unused : List ℕ

abbrev pub entry_size : Entry → ℕ
entry_size e = 8 + (length e.name + length e.unused)

abbrev pub head_bytes : Entry → List ℕ
head_bytes e = bytes32 e.inode ++ bytes16 (entry_size e) ++ length e.name ∷ e.file_type ∷ []

abbrev pub dir_bytes : List Entry → List ℕ
dir_bytes [] = []
dir_bytes (e ∷ es) = head_bytes e ++ (e.name ++ (e.unused ++ dir_bytes es))

abbrev pub IsEntry : Entry → Type 0
IsEntry e = (e.inode < 2 ^ 32) × (entry_size e < 2 ^ 16) × (length e.name < 2 ^ 8) × IsText e.name

pub length-entry :
    (e : Entry) (es : List Entry)
    → length (dir_bytes (e ∷ es)) ≡ entry_size e + length (dir_bytes es)
length-entry e es =
    omega (
      arith,
      length-append e.name (e.unused ++ dir_bytes es),
      length-append e.unused (dir_bytes es),
    )

-- What a walk over the entries is to do.
abbrev pub each {ℓ} : {S : Type ℓ} → (ℕ → List ℕ → S → Option S) → List Entry → S → Option S
each work [] s = some s
each work (e ∷ es) s = work e.inode (cstr e.name) s >>= λ s'. each work es s'

module _ (ide : BlockIo) (block_size : ℕ) (node : Node) where
  abbrev io : BlockIo
  io = node_io ide block_size node

  module _ (dev : IsDevice io) where
    -- What the four reads of a round find.
    round_reads :
        (offset : ℕ) (e : Entry) (es : List Entry)
        → IsEntry e
        → offset + length (dir_bytes (e ∷ es)) ≡ node.info.size_low
        → slice io offset (length (dir_bytes (e ∷ es))) ≡ dir_bytes (e ∷ es)
        → (slice io offset 4 ≡ bytes32 e.inode)
          × (slice io (offset + 4) 2 ≡ bytes16 (entry_size e))
          × (slice io (offset + 6) 1 ≡ length e.name ∷ [])
          × (slice io (offset + 8) (length e.name) ≡ e.name)
          × (slice io (offset + entry_size e) (length (dir_bytes es)) ≡ dir_bytes es)
    round_reads offset e es valid end here =
        let rest = e.name ++ (e.unused ++ dir_bytes es) in
        let l = length rest in
        let tail = length e.name ∷ e.file_type ∷ rest in
        let name_end : l ≡ length e.name + (length e.unused + length (dir_bytes es)) =
          omega (arith, length-entry e es) in
        let at4 : slice io (offset + 4) (4 + l) ≡ bytes16 (entry_size e) ++ tail =
          slice_back io offset (length (dir_bytes (e ∷ es))) (4 + l) (bytes32 e.inode)
            (bytes16 (entry_size e) ++ tail) here (omega arith) in
        let at6 : slice io (offset + 4 + 2) (2 + l) ≡ tail =
          slice_back io (offset + 4) (4 + l) (2 + l) (bytes16 (entry_size e)) tail at4
            (omega arith) in
        let at8 : slice io (offset + 4 + 2 + 2) l ≡ rest =
          slice_back io (offset + 4 + 2) (2 + l) l (length e.name ∷ e.file_type ∷ []) rest at6
            (omega arith) in
        let after_name =
          slice_back io (offset + 4 + 2 + 2) l (length e.unused + length (dir_bytes es)) e.name _
            at8 name_end in
        let after =
          slice_back io (offset + 4 + 2 + 2 + length e.name) _ (length (dir_bytes es)) e.unused
            (dir_bytes es) after_name refl in
        let o6 : offset + 4 + 2 ≡ offset + 6 = omega arith in
        let o8 : offset + 4 + 2 + 2 ≡ offset + 8 = omega arith in
        let oe : offset + 4 + 2 + 2 + length e.name + length e.unused ≡ offset + entry_size e =
          omega arith in
        (
          slice_front io offset (length (dir_bytes (e ∷ es))) (4 + l) (bytes32 e.inode)
              (bytes16 (entry_size e) ++ tail) here (omega arith),
          slice_front io (offset + 4) (4 + l) (2 + l) (bytes16 (entry_size e)) tail at4
              (omega arith),
          ap (λ o. slice io o 1) (sym o6)
              ∙ slice_front io (offset + 4 + 2) (2 + l) (1 + l) (length e.name ∷ []) _ at6
                  (omega arith),
          ap (λ o. slice io o (length e.name)) (sym o8)
              ∙ slice_front io (offset + 4 + 2 + 2) l _ e.name _ at8 name_end,
          ap (λ o. slice io o (length (dir_bytes es))) (sym oe) ∙ after,
        )

    entries_loop-each {ℓ} :
        {S : Type ℓ} (work : ℕ → List ℕ → S → Option S) (rounds offset : ℕ) (es : List Entry)
        (s : S)
        → All IsEntry es
        → offset + length (dir_bytes es) ≡ node.info.size_low
        → slice io offset (length (dir_bytes es)) ≡ dir_bytes es
        → length (dir_bytes es) < rounds
        → entries_loop ide block_size work node rounds offset s ≡ each work es s
    unfolding entries_loop
    entries_loop-each work zero offset es s valid end here enough = absurd (omega arith)
    entries_loop-each work (suc rounds) offset [] s valid end here enough =
        let e : ltb offset node.info.size_low ≡ false = ground arith in rw (e, entries_loop)
    entries_loop-each work (suc rounds) offset (e ∷ es) s valid end here enough =
        let (inode, total, len, name, rest) = round_reads offset e es valid.0 end here in
        let rest_size = length-entry e es in
        let fits = dev.fits in
        let w4 : wrap (offset + 4) ≡ offset + 4 = omega arith in
        let w6 : wrap (offset + 6) ≡ offset + 6 = omega arith in
        let w8 : wrap (offset + 8) ≡ offset + 8 = omega arith in
        let number : word32_at (bytes32 e.inode) 0 ≡ e.inode = omega (arith, valid.0.0) in
        let next : wrap (offset + word16_at (bytes16 (entry_size e)) 0) ≡ offset + entry_size e =
          omega (arith, valid.0.1) in
        let more : ltb offset node.info.size_low ≡ true = ground arith in
        let read4 = read_object_lem io dev offset 4 (omega arith) ∙ ap some inode in
        let read2 = read_object_lem io dev (offset + 4) 2 (omega arith) ∙ ap some total in
        let read1 = read_object_lem io dev (offset + 6) 1 (omega arith) ∙ ap some len in
        let read_name =
          read_object_lem io dev (offset + 8) (length e.name) (omega arith) ∙ ap some name in
        rw (more, entries_loop)
          (rw (read4, w4, read2, w6, read1, w8, read_name)
            (rw (number, next)
              (elim (Option-cases (work e.inode (cstr e.name) s)) [
                | inl fault ↦ rw fault
                | inr (s', ran) ↦ rw ran (
                    entries_loop-each work rounds (offset + entry_size e) es s' valid.1
                      (omega arith) rest (omega arith))
              ])))

  -- The bytes of a directory are those of the entries.
  abbrev pub IsDirectory : List Entry → Type 0
  IsDirectory es =
      (is_dir node.info ≡ true)
      × All IsEntry es
      × (length (dir_bytes es) ≡ node.info.size_low)
      × (slice io 0 node.info.size_low ≡ dir_bytes es)

  module _ (dev : IsDevice io) (es : List Entry) (dir : IsDirectory es) where
    pub entries_lem {ℓ} :
        {S : Type ℓ} (work : ℕ → List ℕ → S → Option S) (s : S)
        → entries ide block_size work node s ≡ each work es s
    unfolding entries
    entries_lem work s = rw dir.0 (
        entries_loop-each dev work (suc node.info.size_low) 0 es s dir.1 (omega (arith, dir.2))
          (ap (slice io 0) dir.2 ∙ dir.3) (omega (arith, dir.2)))
