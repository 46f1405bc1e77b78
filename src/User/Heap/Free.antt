-- ===== src/User/Heap/Free.antt =====
-- `free` gives a block back and joins it with free neighbours.
use os_shell.Common.{
  append-nil, ℕ, ◌+◌, ◌≤◌, ◌≡◌, refl, some, List, [], ◌∷◌, ◌++◌, arith, ap, ◌∙◌, sym, inl, inr,
  Bool-cases, subst,
}
use native.Mathlib.Numerals.{add-one}
use os_shell.User.Heap.{Array, Heap, make_avail, free_block, free}
use os_shell.User.Heap.Cells.{Block, ends}
use os_shell.User.Heap.State.{IsHeap, part_at}
use os_shell.User.Heap.Open.{taken_block, free_block_of, absorb_taken}
use os_shell.User.Heap.Kept.{Kept, KeptRun}
use os_shell.User.Heap.Payload.{payloads, payloads-same, payloads-append}
use os_shell.User.Heap.Joins.{
  join_right, Before, nothing, block, blocks_of, join_left, join_left-le, if_true, if_false,
  tag_free,
}
use os_shell.User.Heap.Right.{heap_right, size_right, Filled, fill_right}
use os_shell.User.Heap.Left.{heap_left, index_left, size_left, widen}

-- The blocks once a taken block of `n` between two runs is given back.
abbrev pub merged : Before → ℕ → List Block → List Block
merged v n post =
    let (pre, m) = join_left v n in
    let (k, rest) = join_right m post in pre ++ free_block_of k ∷ rest

-- The block that is joined on the left held nothing.
left_rows :
    (a : Array) (v : Before) (n : ℕ) → payloads a 2 (blocks_of v) ≡ payloads a 2 (join_left v n).0
left_rows a nothing n = refl
left_rows a (block bs b) n = elim (Bool-cases b.free) [
  | inl f ↦
      let is : b ≡ free_block_of b.ints = ap (λ t. record { free = t; ints = b.ints }) f in
      payloads-append a 2 bs (b ∷ [])
      ∙ ap (λ c. payloads a 2 bs ++ payloads a (ends 2 bs) (c ∷ [])) is
      ∙ append-nil (payloads a 2 bs)
      ∙ ap {A = List Block × ℕ} (λ r. payloads a 2 r.0)
          (sym (if_true b.free (bs, n + b.ints) (bs ++ b ∷ [], n) f))
  | inr f ↦
      ap {A = List Block × ℕ} (λ r. payloads a 2 r.0)
        (sym (if_false b.free (bs, n + b.ints) (bs ++ b ∷ [], n) f))
]

rows-same :
    (a b c : Array) (v : Before) (n hi : ℕ) (post : List Block)
    → Kept a b (join_left v n).0 hi post
    → KeptRun b c 2 (join_left v n).0
    → payloads c hi post ≡ payloads b hi post
    → (payloads c 2 (blocks_of v) ≡ payloads a 2 (blocks_of v))
      × (payloads c hi post ≡ payloads a hi post)
rows-same a b c v n hi post k l e = (
  left_rows c v n
      ∙ payloads-same a c 2 (join_left v n).0 (λ d t. l d t ∙ k.0 d t)
      ∙ sym (left_rows a v n),
  e ∙ payloads-same a b hi post k.1,
)

-- In any heap, `free` of a pointer behind the header of a taken block leaves a heap in which this
-- block is free, joined with the block before it and the block behind it where these are free; the
-- other blocks stay as they are, and the taken ones hold what they held.
pub free_lem :
    (h : Heap) (v : Before) (n : ℕ) (post : List Block) (xs : List ℕ)
    → IsHeap h (blocks_of v ++ taken_block n ∷ post) xs
    → let h' = free (some (ends 2 (blocks_of v) + 1)) h in
      let behind = ends 2 (blocks_of v) + n in
      (ys : List ℕ) × IsHeap h' (merged v n post) ys
      × (payloads h'.array 2 (blocks_of v) ≡ payloads h.array 2 (blocks_of v))
      × (payloads h'.array behind post ≡ payloads h.array behind post)
unfolding free free_block
free_lem h v n post xs o =
    let p = ends 2 (blocks_of v) in
    let o1 = part_at h (blocks_of v) (taken_block n ∷ post) xs o in
    let big = o1.post_big.0 in
    let (taken, sized, not_free) = tag_free (taken_block n) (h.array p) big o1.post_tiles.0 in
    let (ys, o2, fits, same, k) =
      widen h v p n (p + n) post xs (absorb_taken h (blocks_of v) p p n post xs o1) refl in
    let wide : 4 ≤ size_left h p n = omega (arith, same, join_left-le v n, big) in
    let pre = (join_left v n).0 in
    let h1 = heap_left h p in
    let lo = index_left h p in
    let h2 =
      make_avail lo (size_right h1 pre lo (p + n) post ys o2 (size_left h p n))
        (heap_right h1 pre lo (p + n) post ys o2) in
    let (zs, heap, k_pre, k_post) =
      subst (λ m. Filled h1 pre lo (p + n) post ys o2 (size_left h p n) (join_right m post)) same
        (fill_right h1 pre lo (p + n) post ys o2 (size_left h p n) wide fits) in
    let (rows, rows') = rows-same h.array h1.array h2.array v n (p + n) post k k_pre k_post in
    rw (add-one p, not_free, sized) (zs, heap, rows, rows')
