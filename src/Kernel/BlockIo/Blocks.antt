-- ===== src/Kernel/BlockIo/Blocks.antt =====
-- The bytes of a device, and one call of `read`.
use os_shell.Common.{
  ℕ, zero, suc, ◌+◌, ◌-◌, ◌*◌, ◌/◌, ◌%◌, ◌≡◌, ◌<◌, ◌≤◌, refl, List, [], ◌∷◌, ◌++◌, arith, length,
  take, drop, min, get_or, ap, ap₂, sym, ◌∙◌, ltb, ◌==◌, Bool-cases, inl, inr, false, ==_ne, ==_iff,
  take_all,
}
use native.Mathlib.Nat.{
  mul-add-div_right, mul-add-mod_self_right, div-add-mod', mod-lt, mod-eq_of_lt, div-eq_of_lt,
}
use os_shell.Kernel.BlockIo.{BlockIo, IsDevice, block, bytes, failed, read}

-- The byte at an offset, in the block that holds it.
abbrev pub content : BlockIo → ℕ → ℕ
content d i = get_or (block d (i / d.block_size)) (i % d.block_size) 0

-- The `k` bytes from offset `o` on.
abbrev pub slice : BlockIo → ℕ → ℕ → List ℕ
slice d o zero = []
slice d o (suc k) = content d o ∷ slice d (o + 1) k

pub length-slice : (d : BlockIo) (o k : ℕ) → length (slice d o k) ≡ k
length-slice d o zero = refl
length-slice d o (suc k) = ap suc (length-slice d (o + 1) k)

pub slice-append : (d : BlockIo) (o j k : ℕ) → slice d o j ++ slice d (o + j) k ≡ slice d o (j + k)
slice-append d o zero k = ap₂ (slice d) (omega arith) (omega arith)
slice-append d o (suc j) k =
    let e : o + suc j ≡ o + 1 + j = omega arith in
    let f : suc j + k ≡ suc (j + k) = omega arith in
    rw (e, f) (ap (λ l. content d o ∷ l) (slice-append d (o + 1) j k))

take-drop-cons :
    (xs : List ℕ) (i k : ℕ)
    → i < length xs
    → take (suc k) (drop i xs) ≡ get_or xs i 0 ∷ take k (drop (i + 1) xs)
take-drop-cons [] i k h = absurd (omega arith)
take-drop-cons (x ∷ xs) zero k h = refl
take-drop-cons (x ∷ xs) (suc i) k h =
    let e : suc i + 1 ≡ suc (i + 1) = omega arith in rw e (take-drop-cons xs i k (omega arith))

whole_block : (xs : List ℕ) (m k : ℕ) → length xs ≡ k → m ≡ 0 → take k (drop m xs) ≡ xs
whole_block xs m k len e = rw e (take_all k xs (omega arith))

module _ (d : BlockIo) (dev : IsDevice d) where
  content-block :
      (b m : ℕ) → m < d.block_size → content d (b * d.block_size + m) ≡ get_or (block d b) m 0
  content-block b m h =
      let e : b + m / d.block_size ≡ b = omega (arith, div-eq_of_lt h) in
      rw (
        mul-add-div_right dev.positive b m,
        e,
        mul-add-mod_self_right b d.block_size m,
        mod-eq_of_lt h,
      )

  -- A piece of one block is a slice of the device.
  piece-slice :
      (b m k : ℕ)
      → b * d.block_size < d.size_in_bytes
      → m + k ≤ d.block_size
      → take k (drop m (block d b)) ≡ slice d (b * d.block_size + m) k
  piece-slice b m zero on h = refl
  piece-slice b m (suc k) on h =
      let e : b * d.block_size + m + 1 ≡ b * d.block_size + (m + 1) = omega arith in
      take-drop-cons (block d b) m k (omega (arith, dev.whole b on))
      ∙ rw (content-block b m (omega arith), e)
          (ap (λ l. get_or (block d b) m 0 ∷ l) (piece-slice b (m + 1) k on (omega arith)))

  -- How much one call reads: what is left of the block, of the range and of the device.
  abbrev pub one_read : ℕ → ℕ → ℕ
  one_read offset n = min (d.block_size - offset % d.block_size) (min n (d.size_in_bytes - offset))

  -- One call within the device.
  pub read-slice :
      (offset n : ℕ)
      → offset < d.size_in_bytes
      → read d offset n ≡ bytes (slice d offset (one_read offset n))
  unfolding read
  read-slice offset n h =
      let b = offset / d.block_size in
      let m = offset % d.block_size in
      let k = one_read offset n in
      let inside : m < d.block_size = mod-lt offset dev.positive in
      let on : b * d.block_size < d.size_in_bytes =
        omega (arith, div-add-mod' offset d.block_size) in
      let piece : take k (drop m (block d b)) ≡ slice d offset k =
        piece-slice b m k on (omega arith)
        ∙ ap (λ o. slice d o k) (div-add-mod' offset d.block_size) in
      let past : ltb d.size_in_bytes offset ≡ false = ground arith in
      rw (past, ==_ne offset d.size_in_bytes (omega arith), dev.there b on)
        (ap bytes (elim (Bool-cases (k == d.block_size)) [
          | inl e ↦ rw e (
              sym (
                whole_block (block d b) m k
                  (omega (arith, dev.whole b on, (==_iff k d.block_size).0 e))
                  (omega (arith, (==_iff k d.block_size).0 e)))
              ∙ piece)
          | inr ne ↦ rw ne piece
        ]))

  pub read_end : (n : ℕ) → read d d.size_in_bytes n ≡ bytes []
  unfolding read
  read_end n = ground arith

  pub read_beyond : (offset n : ℕ) → d.size_in_bytes < offset → read d offset n ≡ failed
  unfolding read
  read_beyond offset n h = ground arith
