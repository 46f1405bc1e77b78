-- ===== src/User/Heap/Right.antt =====
-- The right half of `free`: the block behind is joined, and the whole is made free.
use os_shell.Common.{
  ◌||◌, ==_refl, ℕ, ◌+◌, ◌≤◌, ◌≡◌, refl, Bool, true, false, List, [], ◌∷◌, ◌++◌, arith,
  if◌then◌else◌, ap, ◌∙◌, sym, inl, inr, Bool-cases, subst,
}
use os_shell.Common.Int.{neg_of}
use os_shell.User.Heap.{Heap, abs, size, is_avail, remove, make_avail}
use os_shell.User.Heap.Cells.{mem, starts, Block}
use os_shell.User.Heap.State.{IsOpen, IsHeap, join_at}
use os_shell.User.Heap.Open.{free_block_of, absorb_free}
use os_shell.User.Heap.Kept.{KeptRun, KeptRun-behind, remove-Kept, make_avail-Kept}
use os_shell.User.Heap.Payload.{payloads, payloads-same}
use os_shell.User.Heap.Fill.{make_avail_lem}
use os_shell.User.Heap.Joins.{join_right, if_false, tag_free}

module _ (h : Heap) (pre : List Block) (lo hi : ℕ) (post : List Block) (xs : List ℕ)
    (o : IsOpen h pre lo hi post xs) where
  abbrev pub merge_right : Bool
  merge_right = is_avail h.array hi

  abbrev pub heap_right : Heap
  heap_right = if merge_right then remove hi h else h

  abbrev pub size_right : ℕ → ℕ
  size_right sz = if merge_right then sz + size heap_right.array hi else sz

  -- What a gap that fills the rest becomes when it is made free.
  abbrev pub Filled : ℕ → ℕ × List Block → Type 0
  Filled sz (n, rest) =
      let h' = make_avail lo (size_right sz) heap_right in
      (ys : List ℕ) × IsHeap h' (pre ++ free_block_of n ∷ rest) ys
      × KeptRun h.array h'.array 2 pre
      × (payloads h'.array hi post ≡ payloads h.array hi post)

  fill_kept : (sz : ℕ) → 4 ≤ sz → lo + sz ≡ hi → merge_right ≡ false → Filled sz (sz, post)
  fill_kept sz big fits kept =
      let o1 =
        make_avail_lem h pre lo sz post xs big
          (subst (λ i. IsOpen h pre lo i post xs) (sym fits) o) in
      let (k_pre, k_post) =
        make_avail-Kept h pre lo sz post xs big
          (subst (λ i. IsOpen h pre lo i post xs) (sym fits) o) in
      (
        lo ∷ xs,
        rw kept (join_at (make_avail lo sz h) pre (free_block_of sz ∷ post) (lo ∷ xs) lo o1),
        rw kept k_pre,
        rw kept (
            payloads-same h.array (make_avail lo sz h).array hi post
              (subst (λ i. KeptRun h.array (make_avail lo sz h).array i post) fits k_post)),
      )

or_true : (a : Bool) → (a || true) ≡ true
or_true true = refl
or_true false = refl

pub fill_right :
    (h : Heap) (pre : List Block) (lo hi : ℕ) (post : List Block) (xs : List ℕ)
    (o : IsOpen h pre lo hi post xs) (sz : ℕ)
    → 4 ≤ sz
    → lo + sz ≡ hi
    → Filled h pre lo hi post xs o sz (join_right sz post)
fill_right h pre lo hi [] xs o sz big fits =
    let wall : h.array hi ≡ neg_of 2 = ap h.array o.post_ends ∙ o.walls.2 in
    fill_kept h pre lo hi [] xs o sz big fits (rw wall refl)
fill_right h pre lo hi (b ∷ post) xs o sz big fits = elim (Bool-cases b.free) [
  | inl f ↦
      let n = b.ints in
      let is : b ≡ free_block_of n = ap (λ t. record { free = t; ints = n }) f in
      let (ys, kept, o1) =
        absorb_free h pre lo hi n post xs (subst (λ c. IsOpen h pre lo hi (c ∷ post) xs) is o) in
      let avail : is_avail h.array hi ≡ true =
        (tag_free b (h.array hi) o.post_big.0 o.post_tiles.0).0 ∙ f in
      let sized : size (remove hi h).array hi ≡ n = ap abs kept ∙ omega arith in
      let whole : hi + n ≡ lo + (sz + n) = omega arith in
      let o1' = subst (λ i. IsOpen (remove hi h) pre lo i post ys) whole o1 in
      let o2 = make_avail_lem (remove hi h) pre lo (sz + n) post ys (omega arith) o1' in
      let h' = make_avail lo (sz + n) (remove hi h) in
      let heaps : make_avail lo (size_right h pre lo hi (b ∷ post) xs o sz)
            (heap_right h pre lo hi (b ∷ post) xs o)
          ≡ h' =
        rw (avail, sized) refl in
      let listed : mem hi xs ≡ true =
        rw (f, ==_refl hi) at (o.same hi) ∙ or_true (mem hi (starts 2 pre)) in
      let (r_pre, r_post) = remove-Kept h pre lo hi (b ∷ post) xs o hi listed in
      let (k_pre, k_post) =
        make_avail-Kept (remove hi h) pre lo (sz + n) post ys (omega arith) o1' in
      let k_post' = subst (λ i. KeptRun (remove hi h).array h'.array i post) (sym whole) k_post in
      let behind : payloads h'.array (hi + n) post ≡ payloads h.array (hi + n) post =
        payloads-same h.array h'.array (hi + n) post
          (λ c t. k_post' c t ∙ KeptRun-behind h.array (remove hi h).array hi b post r_post c t) in
      (
        lo ∷ ys,
        rw (f, avail, sized)
            (join_at (make_avail lo (sz + n) (remove hi h)) pre (free_block_of (sz + n) ∷ post)
              (lo ∷ ys) lo o2),
        rw (avail, sized) (λ c t. k_pre c t ∙ r_pre c t),
        subst (λ t. payloads t.array hi (b ∷ post) ≡ payloads h.array hi (b ∷ post)) (sym heaps)
            (subst (λ c. payloads h'.array hi (c ∷ post) ≡ payloads h.array hi (c ∷ post)) (sym is)
              behind),
      )
  | inr f ↦
      let kept : is_avail h.array hi ≡ false =
        (tag_free b (h.array hi) o.post_big.0 o.post_tiles.0).0 ∙ f in
      subst (Filled h pre lo hi (b ∷ post) xs o sz)
        (sym (if_false b.free (sz + b.ints, post) (sz, b ∷ post) f))
        (fill_kept h pre lo hi (b ∷ post) xs o sz big fits kept)
]
