-- ===== src/Kernel/BlockIo.antt =====
-- kernel/block_io.h and kernel/block_io.cc: reads of any range of bytes by reads of whole blocks.
pub mod Blocks
pub mod Ranges
pub mod Objects
use os_shell.Common.{
  ◌^◌, ℕ, zero, suc, ◌+◌, ◌-◌, ◌*◌, ◌/◌, ◌%◌, ◌≡◌, ◌<◌, Option, none, some, List, [], ◌∷◌, ◌++◌,
  ltb, ◌==◌, if◌then◌else◌, length, take, drop, min,
}

-- The virtual functions of the class: a subclass gives the size and the blocks. A block that it
-- panics at is `none`.
pub record BlockIo : Type 0 where
  pub block_size : ℕ
  pub size_in_bytes : ℕ
  pub read_block : ℕ → Option (List ℕ)

-- The bytes of a block.
abbrev pub block : BlockIo → ℕ → List ℕ
block d n = elim (d.read_block n) [ none ↦ [] | some bytes ↦ bytes ]

-- What the comments of the class ask of a subclass: a block size above zero, and whole blocks.
pub record IsDevice (d : BlockIo) : Type 0 where
  pub positive : 0 < d.block_size
  pub there : (n : ℕ) → n * d.block_size < d.size_in_bytes → d.read_block n ≡ some (block d n)
  pub whole : (n : ℕ) → n * d.block_size < d.size_in_bytes → length (block d n) ≡ d.block_size
  pub fits : d.size_in_bytes < 2 ^ 32

-- What a read comes to: bytes in `buffer`, whose number is the result; the result -1; or a panic.
pub data Transfer : Type 0 where
  bytes : List ℕ → Transfer
  failed : Transfer
  panic : Transfer

module _ (d : BlockIo) where
  open d use {block_size, size_in_bytes, read_block}

  pub size_in_blocks : ℕ
  size_in_blocks = (size_in_bytes + block_size - 1) / block_size

  unfoldable pub read : ℕ → ℕ → Transfer
  read offset desired_n =
      if ltb size_in_bytes offset
      then failed
      else if offset == size_in_bytes
      then bytes []
      else (let n = min desired_n (size_in_bytes - offset) in
          let block_number = offset / block_size in
          let offset_in_block = offset % block_size in
          let actual_n = min (block_size - offset_in_block) n in
          elim (read_block block_number) [
            | none ↦ panic
            | some buffer ↦ bytes (
                if actual_n == block_size
                then buffer
                else take actual_n (drop offset_in_block buffer))
          ])

  -- A round with a positive count lowers `n`, so `n` rounds are enough; `none` is that the rounds
  -- ran out.
  unfoldable pub read_all_loop : ℕ → ℕ → ℕ → List ℕ → Option Transfer
  read_all_loop rounds offset zero done = some (bytes done)
  read_all_loop zero offset (suc n) done = none
  read_all_loop (suc rounds) offset (suc n) done = elim (read offset (suc n)) [
    | panic ↦ some panic
    | failed ↦ some failed
    | bytes [] ↦ some (bytes done)
    | bytes (b ∷ bs) ↦
        let cnt = length (b ∷ bs) in
        read_all_loop rounds (offset + cnt) (suc n - cnt) (done ++ b ∷ bs)
  ]

  unfoldable pub read_all : ℕ → ℕ → Option Transfer
  read_all offset n = read_all_loop n offset n []

  -- `read(offset, thing)` of a type of `size` bytes: its assertion panics unless all were read.
  unfoldable pub read_object : ℕ → ℕ → Option (List ℕ)
  read_object offset size = elim (read_all offset size) [
    | some (bytes got) ↦ if length got == size then some got else none
    | other ↦ none
  ]
