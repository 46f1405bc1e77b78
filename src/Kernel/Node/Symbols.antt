-- ===== src/Kernel/Node/Symbols.antt =====
-- What a symbolic link refers to.
use os_shell.Common.{
  ℕ, zero, suc, ◌+◌, ◌*◌, ◌^◌, ◌<◌, ◌≤◌, ◌≡◌, refl, some, List, [], ◌∷◌, ◌++◌, arith, ap, ap₂, ◌∙◌,
  true, leb, leb→le, length, get_or, take, drop, drop-get_or, All, Bool-cases, inl, inr,
  if◌then◌else◌,
}
use os_shell.Common.Text.{word32_at, bytes32}
use os_shell.Kernel.BlockIo.{BlockIo, IsDevice}
use os_shell.Kernel.BlockIo.Blocks.{slice}
use os_shell.Kernel.BlockIo.Objects.{read_object_lem}
use os_shell.Kernel.Node.{
  Node, node_data, node_io, is_symlink, words_at, bytes_of_words, get_symbol,
}

abbrev pub AreBytes : List ℕ → Type 0
AreBytes = All (λ b. b < 2 ^ 8)

byte_at : (s : List ℕ) (i : ℕ) → AreBytes s → get_or s i 0 < 2 ^ 8
byte_at [] i h = omega arith
byte_at (b ∷ s) zero h = h.0
byte_at (b ∷ s) (suc i) h = byte_at s i h.1

-- The bytes of a word that was read from four bytes are those bytes.
bytes32-word32_at :
    (s : List ℕ) (i : ℕ)
    → AreBytes s
    → bytes32 (word32_at s i)
      ≡ get_or s i 0 ∷ get_or s (i + 1) 0 ∷ get_or s (i + 2) 0 ∷ get_or s (i + 3) 0 ∷ []
bytes32-word32_at s i h =
    let b0 = byte_at s i h in
    let b1 = byte_at s (i + 1) h in
    let b2 = byte_at s (i + 2) h in
    let b3 = byte_at s (i + 3) h in let e : i + 2 + 1 ≡ i + 3 = omega arith in rw e (ground arith)

drop_four :
    (s : List ℕ) (i : ℕ)
    → i + 4 ≤ length s
    → get_or s i 0 ∷ get_or s (i + 1) 0 ∷ get_or s (i + 2) 0 ∷ get_or s (i + 3) 0 ∷ drop (i + 4) s
      ≡ drop i s
drop_four s i h =
    let e2 : i + 1 + 1 ≡ i + 2 = omega arith in
    let e3 : i + 2 + 1 ≡ i + 3 = omega arith in
    let e4 : i + 3 + 1 ≡ i + 4 = omega arith in
    rw (
      drop-get_or s i 0 (omega arith),
      drop-get_or s (i + 1) 0 (omega arith),
      e2,
      drop-get_or s (i + 2) 0 (omega arith),
      e3,
      drop-get_or s (i + 3) 0 (omega arith),
      e4,
    )

bytes_of_words-words_at :
    (n : ℕ) (s : List ℕ) (i : ℕ)
    → AreBytes s
    → i + n * 4 ≤ length s
    → bytes_of_words (words_at n s i) ≡ take (n * 4) (drop i s)
unfolding bytes_of_words words_at
bytes_of_words-words_at zero s i h fits = refl
bytes_of_words-words_at (suc n) s i h fits =
    let e : suc n * 4 ≡ suc (suc (suc (suc (n * 4)))) = omega arith in
    ap₂ ◌++◌ (bytes32-word32_at s i h) (bytes_of_words-words_at n s (i + 4) h (omega arith))
    ∙ rw e (ap (take (suc (suc (suc (suc (n * 4)))))) (drop_four s i (omega arith)))

pointers_lem : (s : List ℕ) → (node_data s).pointers ≡ words_at 15 s 40
unfolding node_data
pointers_lem s = refl

take-take : (m n : ℕ) (xs : List ℕ) → m ≤ n → take m (take n xs) ≡ take m xs
take-take zero n xs h = refl
take-take (suc m) zero xs h = absurd (omega arith)
take-take (suc m) (suc n) [] h = refl
take-take (suc m) (suc n) (x ∷ xs) h = ap (λ l. x ∷ l) (take-take m n xs (omega arith))

module _ (ide : BlockIo) (block_size number : ℕ) (s : List ℕ) where
  abbrev node : Node
  node = record { number = number; info = node_data s }

  -- The name of a symbolic link whose node was read from the bytes `s`: up to 60 bytes are those of
  -- the node from byte 40 on, and a longer name is what the
  -- node, a device, holds.
  pub get_symbol_lem :
      AreBytes s
      → length s ≡ 128
      → is_symlink (node_data s) ≡ true
      → (60 < (node_data s).size_low → IsDevice (node_io ide block_size node))
      → get_symbol ide block_size node
        ≡ some (
            if leb (node_data s).size_low 60
            then take (node_data s).size_low (drop 40 s)
            else slice (node_io ide block_size node) 0 (node_data s).size_low)
  unfolding get_symbol
  get_symbol_lem h len link dev =
      let sz = (node_data s).size_low in
      rw (link, get_symbol)
        (elim (Bool-cases (leb sz 60)) [
          | inl e ↦ rw e (
              ap some (
                ap (λ ws. take sz (bytes_of_words ws)) (pointers_lem s)
                ∙ ap (take sz) (bytes_of_words-words_at 15 s 40 h (omega arith))
                ∙ take-take sz (15 * 4) (drop 40 s) (leb→le sz 60 e)))
          | inr e ↦ rw e (
              read_object_lem (node_io ide block_size node) (dev (ground arith)) 0 sz (omega arith))
        ])
