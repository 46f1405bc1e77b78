-- ===== src/Kernel/File/Reads.antt =====
-- Reading a file of the disk from front to back.
use os_shell.Common.{
  ℕ, ◌+◌, ◌-◌, ◌<◌, ◌≤◌, ◌≡◌, Option, some, List, [], ◌∷◌, ◌++◌, arith, ap, ◌∙◌, min, leb, ◌==◌,
  ◌||◌, le→ltb, ◌>>=◌, Bool-cases, inl, inr, All,
}
use os_shell.Kernel.BlockIo.{BlockIo, IsDevice, bytes}
use os_shell.Kernel.BlockIo.Blocks.{slice, slice-append}
use os_shell.Kernel.BlockIo.Ranges.{read_all_lem}
use os_shell.Kernel.Node.{Node, node_io, wrap}
use os_shell.Kernel.File.{Devices, File, actual_file, user_space, read, at_most, read_actual}

at_most_lem : (rest n : ℕ) → at_most rest n ≡ min n rest
unfolding at_most
at_most_lem rest n = ground arith

module _ (me : ℕ) (ide : BlockIo) (block_size : ℕ) (node : Node)
    (dev : IsDevice (node_io ide block_size node)) where
  abbrev pub left : ℕ → ℕ
  left offset = node.info.size_low - offset

  -- One read into user space, at any offset.
  pub read-actual_file :
      (buffer n offset : ℕ) (d : Devices)
      → user_space ≤ buffer
      → read me ide block_size buffer n (actual_file node offset) d
        ≡ some (
          min n (left offset),
          slice (node_io ide block_size node) offset (min n (left offset)),
          actual_file node (offset + min n (left offset)),
          d,
        )
  unfolding read read_actual
  read-actual_file buffer n offset d user =
      rw (le→ltb _ _ user) (elim (Bool-cases (leb node.info.size_low offset || n == 0)) [
        | inl stop ↦
            let e : min n (left offset) ≡ 0 = ground arith in
            rw (stop, e) (ap (λ o. some (0, [], actual_file node o, d)) (omega arith))
        | inr go ↦
            let inside : offset < node.info.size_low = ground arith in
            let b = at_most (left offset) n in
            let eb : b ≡ min n (left offset) = at_most_lem (left offset) n in
            let same : min b (left offset) ≡ b = omega arith in
            let w : wrap (offset + min n (left offset)) ≡ offset + min n (left offset) =
              omega (arith, dev.fits) in
            let got =
              read_all_lem (node_io ide block_size node) dev offset b (omega arith)
              ∙ ap (λ k. some (bytes (slice (node_io ide block_size node) offset k))) same in
            rw go (rw got (rw (eb, w)))
      ])

  abbrev pub total : List (ℕ × ℕ) → ℕ
  total [] = 0
  total ((buffer, n) ∷ calls) = n + total calls

  -- A sequence of reads, each into user space: all the bytes they deliver.
  pub read_seq : List (ℕ × ℕ) → File → Devices → Option (List ℕ)
  read_seq [] f d = some []
  read_seq ((buffer, n) ∷ calls) f d = do
    got ← read me ide block_size buffer n f d
    rest ← read_seq calls got.2 got.3
    some (got.1 ++ rest)

  -- Reads into user space, one after another, deliver the file from the offset on: as many bytes as
  -- they ask for together, or all that are left. None of them panics.
  pub read_seq_lem :
      (calls : List (ℕ × ℕ)) (offset : ℕ) (d : Devices)
      → All (λ c. user_space ≤ c.0) calls
      → read_seq calls (actual_file node offset) d
        ≡ some (slice (node_io ide block_size node) offset (min (total calls) (left offset)))
  unfolding read_seq
  read_seq_lem [] offset d user = let e : min 0 (left offset) ≡ 0 = omega arith in rw e
  read_seq_lem ((buffer, n) ∷ calls) offset d user =
      let io = node_io ide block_size node in
      let k = min n (left offset) in
      let j = min (total calls) (left (offset + k)) in
      let sum : k + j ≡ min (n + total calls) (left offset) = omega arith in
      rw (read-actual_file buffer n offset d user.0, read_seq_lem calls (offset + k) d user.1)
        (ap some (slice-append io offset k j ∙ ap (slice io offset) sum))
