-- ===== src/Kernel/BlockIo/Objects.antt =====
-- Reads of an object of a known size, and how a range of a device splits.
use os_shell.Common.{
  ℕ, ◌+◌, ◌-◌, ◌≡◌, ◌≤◌, refl, some, List, ◌++◌, arith, length, min, take, drop, ap, sym, ◌∙◌,
  ==_refl, take-append_exact, drop-append_exact,
}
use os_shell.Kernel.BlockIo.{BlockIo, IsDevice, read_object}
use os_shell.Kernel.BlockIo.Blocks.{slice, length-slice, slice-append}
use os_shell.Kernel.BlockIo.Ranges.{read_all_lem}

module _ (d : BlockIo) (dev : IsDevice d) where
  -- An object within the device is read as its bytes.
  pub read_object_lem :
      (offset size : ℕ)
      → offset + size ≤ d.size_in_bytes
      → read_object d offset size ≡ some (slice d offset size)
  unfolding read_object
  read_object_lem offset size h =
      let e : min size (d.size_in_bytes - offset) ≡ size = omega arith in
      rw (read_all_lem d dev offset size (omega arith), read_object)
        (rw (e, length-slice d offset size, ==_refl size))

-- The parts of a range whose bytes are known.
module _ (d : BlockIo) (o n k : ℕ) (xs ys : List ℕ) (here : slice d o n ≡ xs ++ ys) where
  pub slice_front : n ≡ length xs + k → slice d o (length xs) ≡ xs
  slice_front size =
      sym
        (take-append_exact (length xs) _ (slice d (o + length xs) k) (length-slice d o (length xs)))
      ∙ ap (take (length xs)) (slice-append d o (length xs) k ∙ ap (slice d o) (sym size) ∙ here)
      ∙ take-append_exact (length xs) xs ys refl

  pub slice_back : n ≡ length xs + k → slice d (o + length xs) k ≡ ys
  slice_back size =
      sym (drop-append_exact (length xs) (slice d o (length xs)) _ (length-slice d o (length xs)))
      ∙ ap (drop (length xs)) (slice-append d o (length xs) k ∙ ap (slice d o) (sym size) ∙ here)
      ∙ drop-append_exact (length xs) xs ys refl
