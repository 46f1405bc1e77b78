-- ===== src/Kernel/BlockIo/Ranges.antt =====
-- `read_all`: a whole range, block by block.
use os_shell.Common.{
  ℕ, zero, suc, ◌+◌, ◌-◌, ◌%◌, ◌≡◌, ◌<◌, ◌≤◌, refl, some, List, [], ◌∷◌, ◌++◌, arith, length, min,
  ap, ◌∙◌, append-nil, append_assoc, Bool-cases, inl, inr, ltb, ltb→lt, ltb→le, ◌==◌, if◌then◌else◌,
}
use native.Mathlib.Nat.{mod-lt}
use os_shell.Kernel.BlockIo.{BlockIo, IsDevice, bytes, failed, read, read_all_loop, read_all}
use os_shell.Kernel.BlockIo.Blocks.{
  slice, length-slice, slice-append, one_read, read-slice, read_end, read_beyond,
}

module _ (d : BlockIo) (dev : IsDevice d) where
  -- What is left of the device from an offset on, up to `n` bytes.
  abbrev left : ℕ → ℕ → ℕ
  left offset n = min n (d.size_in_bytes - offset)

  abbrev Reads : ℕ → ℕ → ℕ → List ℕ → Type 0
  Reads rounds offset n done =
      read_all_loop d rounds offset n done ≡ some (bytes (done ++ slice d offset (left offset n)))

  -- A round that reads something.
  read_all_step :
      (rounds offset n : ℕ) (done out : List ℕ)
      → 0 < length out
      → read d offset (suc n) ≡ bytes out
      → read_all_loop d (suc rounds) offset (suc n) done
        ≡ read_all_loop d rounds (offset + length out) (suc n - length out) (done ++ out)
  unfolding read_all_loop
  read_all_step rounds offset n done [] h e = absurd (omega arith)
  read_all_step rounds offset n done (b ∷ bs) h e = rw (e, read_all_loop)

  -- A round, and what the other rounds do.
  piece_and_rest :
      (rounds offset n : ℕ) (done : List ℕ)
      → offset < d.size_in_bytes
      → let k = one_read d dev offset (suc n) in
        Reads rounds (offset + k) (suc n - k) (done ++ slice d offset k)
        → Reads (suc rounds) offset (suc n) done
  piece_and_rest rounds offset n done h rest =
      let k = one_read d dev offset (suc n) in
      let k_size : length (slice d offset k) ≡ k = length-slice d offset k in
      let in_block : offset % d.block_size < d.block_size = mod-lt offset dev.positive in
      let after = left (offset + k) (suc n - k) in
      read_all_step rounds offset n done (slice d offset k) (omega (arith, k_size))
        (read-slice d dev offset (suc n) h)
      ∙ rw k_size rest
      ∙ ap (λ l. some (bytes l)) (append_assoc done (slice d offset k) (slice d (offset + k) after))
      ∙ ap (λ l. some (bytes (done ++ l))) (slice-append d offset k after)
      ∙ ap (λ j. some (bytes (done ++ slice d offset j))) (omega arith)

  read_all_loop-slice :
      (rounds offset n : ℕ) (done : List ℕ)
      → n ≤ rounds
      → offset ≤ d.size_in_bytes
      → Reads rounds offset n done
  unfolding read_all_loop
  read_all_loop-slice rounds offset zero done enough inside =
      let e : left offset 0 ≡ 0 = omega arith in rw (e, append-nil)
  read_all_loop-slice zero offset (suc n) done enough inside = absurd (omega arith)
  read_all_loop-slice (suc rounds) offset (suc n) done enough inside =
      elim (Bool-cases (ltb offset d.size_in_bytes)) [
        | inl more ↦
            let h = ltb→lt offset d.size_in_bytes more in
            let k = one_read d dev offset (suc n) in
            let in_block : offset % d.block_size < d.block_size = mod-lt offset dev.positive in
            piece_and_rest rounds offset n done h (
              read_all_loop-slice rounds (offset + k) (suc n - k) (done ++ slice d offset k)
                (omega arith) (omega arith))
        | inr stop ↦
            let end : offset ≡ d.size_in_bytes =
              omega (arith, ltb→le offset d.size_in_bytes stop) in
            let none_left : left offset (suc n) ≡ 0 = omega arith in
            rw (none_left, append-nil) (rw (end, read_end d dev, read_all_loop))
      ]

  -- On a device, from an offset within it, `read_all` ends within `n` rounds and puts exactly the
  -- bytes from that offset on into the buffer, `n` of them or all that are left.
  pub read_all_lem :
      (offset n : ℕ)
      → offset ≤ d.size_in_bytes
      → read_all d offset n ≡ some (bytes (slice d offset (min n (d.size_in_bytes - offset))))
  unfolding read_all
  read_all_lem offset n h = read_all_loop-slice n offset n [] (omega arith) h

  -- Past the end it fails, unless it is asked for nothing.
  pub read_all_beyond :
      (offset n : ℕ)
      → d.size_in_bytes < offset
      → read_all d offset n ≡ some (if n == 0 then bytes [] else failed)
  unfolding read_all read_all_loop
  read_all_beyond offset zero h = refl
  read_all_beyond offset (suc n) h = ground (arith, read_beyond d dev offset (suc n) h)
