-- ===== src/User/Heap/Left.antt =====
-- The left half of `free`: the block before is joined.
use os_shell.Common.{
  ℕ, ◌+◌, ◌-◌, ◌≡◌, refl, Bool, true, false, List, [], ◌∷◌, ◌++◌, arith, if◌then◌else◌, ap, ◌∙◌,
  sym, inl, inr, Bool-cases, subst,
}
use os_shell.User.Heap.{Heap, abs, size, left, is_avail, remove}
use os_shell.User.Heap.Cells.{
  mem, mem-starts, Block, tag, ends, AreBig-split, ends-append, Tiles-split,
}
use os_shell.User.Heap.State.{IsOpen}
use os_shell.User.Heap.Open.{free_block_of, absorb_free_before}
use os_shell.User.Heap.Kept.{Kept, KeptRun-front, remove-Kept}
use os_shell.User.Heap.Joins.{
  Before, nothing, block, blocks_of, join_left, if_true, if_false, tag_free,
}

module _ (h : Heap) (p : ℕ) where
  abbrev pub merge_left : Bool
  merge_left = is_avail h.array (left h.array p)

  abbrev pub heap_left : Heap
  heap_left = if merge_left then remove (left h.array p) h else h

  abbrev pub index_left : ℕ
  index_left = if merge_left then left h.array p else p

  abbrev pub size_left : ℕ → ℕ
  size_left sz = if merge_left then sz + size heap_left.array (left h.array p) else sz

  -- What the gap is after the step to the left.
  abbrev pub Widened : ℕ → ℕ → List Block → List Block × ℕ → Type 0
  Widened sz hi post (pre, n) =
      (ys : List ℕ) × IsOpen heap_left pre index_left hi post ys
      × (index_left + size_left sz ≡ hi)
      × (size_left sz ≡ n)
      × Kept h.array heap_left.array pre hi post

  widen_kept :
      (pre : List Block) (sz hi : ℕ) (post : List Block) (xs : List ℕ)
      → IsOpen h pre p hi post xs
      → p + sz ≡ hi
      → merge_left ≡ false
      → Widened sz hi post (pre, sz)
  widen_kept pre sz hi post xs o fits kept =
      (xs, rw kept o, rw kept fits, rw kept refl, rw kept ((λ c t. refl), λ c t. refl))

pub widen :
    (h : Heap) (v : Before) (p sz hi : ℕ) (post : List Block) (xs : List ℕ)
    → IsOpen h (blocks_of v) p hi post xs
    → p + sz ≡ hi
    → Widened h p sz hi post (join_left v sz)
widen h nothing p sz hi post xs o fits =
    let at : p ≡ 2 = sym o.pre_ends in
    let wall : is_avail h.array (left h.array 2) ≡ false = rw (o.walls.1, o.walls.0) refl in
    widen_kept h p [] sz hi post xs o fits (rw at wall)
widen h (block bs b) p sz hi post xs o fits =
    let e = ends 2 bs in
    let n = b.ints in
    let tiles = (Tiles-split h.array 2 bs (b ∷ []) o.pre_tiles).1 in
    let end : e + n ≡ p = sym (ends-append 2 bs (b ∷ [])) ∙ o.pre_ends in
    let big = (AreBig-split bs (b ∷ []) o.pre_big).1.0 in
    let foot : h.array (p - 1) ≡ tag b = ap (λ i. h.array (i - 1)) (sym end) ∙ tiles.1 in
    let at : left h.array p ≡ e = omega (arith, (tag_free b (h.array (p - 1)) big foot).1, end) in
    let flag : is_avail h.array (left h.array p) ≡ b.free =
      ap (is_avail h.array) at ∙ (tag_free b (h.array e) big tiles.0).0 in
    elim (Bool-cases b.free) [
      | inl f ↦
          let is : b ≡ free_block_of n = ap (λ t. record { free = t; ints = n }) f in
          let (end', kept, ys, o1) =
            absorb_free_before h bs n p hi post xs
              (subst (λ c. IsOpen h (bs ++ c ∷ []) p hi post xs) is o) in
          let sized : size (remove e h).array e ≡ n = ap abs kept ∙ omega arith in
          let listed : mem e xs ≡ true = ground (arith, o.same e, mem-starts e 2 bs (b ∷ [])) in
          let (k_pre, k_post) = remove-Kept h (bs ++ b ∷ []) p hi post xs o e listed in
          subst (Widened h p sz hi post) (sym (if_true b.free (bs, sz + n) (bs ++ b ∷ [], sz) f)) (
            ys,
            rw (flag ∙ f, at) o1,
            rw (flag ∙ f, at, sized) (omega arith),
            rw (flag ∙ f, at, sized) refl,
            rw (flag ∙ f, at)
                (KeptRun-front h.array (remove e h).array 2 bs (b ∷ []) k_pre, k_post),
          )
      | inr f ↦
          subst (Widened h p sz hi post) (sym (if_false b.free (bs, sz + n) (bs ++ b ∷ [], sz) f))
            (widen_kept h p (bs ++ b ∷ []) sz hi post xs o fits (flag ∙ f))
    ]
