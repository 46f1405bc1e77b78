-- ===== src/User/Heap/Open.antt =====
-- The gap in a heap that an operation works on: it grows by a block, and it is filled again.
use os_shell.Common.{
  ℕ, suc, ◌+◌, ◌-◌, ◌<◌, ◌≤◌, ◌≡◌, refl, true, false, not, ◌&&◌, ◌||◌, List, [], ◌∷◌, ◌++◌, arith,
  ◌==◌, length, ◌∙◌, sym, inl, inr, ◌⊎◌, Bool-cases, subst, length-append,
}
use os_shell.Common.Int.{pos}
use os_shell.User.Heap.{Heap, heap_len, remove}
use os_shell.User.Heap.Cells.{
  Block, Tiles, ends, AreBig, mem, starts, ends-append, frees-append, Tiles-split, AreBig-split,
  mem-starts, start_range, Tiles-same,
}
use os_shell.User.Heap.Links.{AreSpaced, is_link, mem_split, mem-without, AreSpaced-without}
use os_shell.User.Heap.Remove.{Lists, AreNodes, remove_lem}
use os_shell.User.Heap.State.{AreWalls, IsOpen, pre_tag_off, post_tag_off, link_off, nodes}

absent : (y i : ℕ) (bs : List Block) → ¬ (mem y (starts i bs) ≡ true) → mem y (starts i bs) ≡ false
absent y i bs f = elim (Bool-cases (mem y (starts i bs))) [ inl e ↦ absurd (f e) | inr e ↦ e ]

-- The list after one of its nodes is gone.
record IsWithout (xs : List ℕ) (p : ℕ) (ys : List ℕ) : Type 0 where
  spaced : AreSpaced ys
  same : (y : ℕ) → mem y ys ≡ (mem y xs && not (y == p))
  counted : suc (length ys) ≡ length xs

without :
    (us : List ℕ) (p : ℕ) (vs : List ℕ)
    → AreSpaced (us ++ p ∷ vs)
    → IsWithout (us ++ p ∷ vs) p (us ++ vs)
without us p vs sp = record {
  spaced = (AreSpaced-without p us vs sp).0;
  same = λ y. mem-without y p us vs sp;
  counted = omega (arith, length-append us vs, length-append us (p ∷ vs));
}

module _ (h : Heap) (pre : List Block) (lo hi : ℕ) (post : List Block) (xs : List ℕ)
    (o : IsOpen h pre lo hi post xs) where
  -- `remove` of a node writes only to links.
  pub remove-keeps :
      (p : ℕ) → mem p xs ≡ true → (c : ℕ) → is_link c xs ≡ false → (remove p h).array c ≡ h.array c
  remove-keeps p m c f =
      let (us, vs, e) = mem_split p xs m in
      let (lists, off) =
        remove_lem h us p vs (subst AreSpaced e o.spaced)
          (subst AreNodes e (nodes h pre lo hi post xs o)) (subst (Lists h) e o.lists) in
      off c (subst (λ l. is_link c l ≡ false) e f)

  -- `remove` of a node: what becomes of the list, and that the runs of blocks stay.
  abbrev Removed : ℕ → Heap → Type 0
  Removed p h' =
      (ys : List ℕ) × IsWithout xs p ys
      × Lists h' ys
      × Tiles h'.array 2 pre
      × Tiles h'.array hi post
      × AreWalls h'.array

  removed : (p : ℕ) → mem p xs ≡ true → Removed p (remove p h)
  removed p m =
      let (us, vs, e) = mem_split p xs m in
      let (lists, off) =
        remove_lem h us p vs (subst AreSpaced e o.spaced)
          (subst AreNodes e (nodes h pre lo hi post xs o)) (subst (Lists h) e o.lists) in
      let keeps : (c : ℕ) → is_link c xs ≡ false → (remove p h).array c ≡ h.array c =
        λ c f. off c (subst (λ l. is_link c l ≡ false) e f) in
      let wall : (c : ℕ) → (c < 2) ⊎ (heap_len - 2 ≤ c) → (remove p h).array c ≡ h.array c = λ c w.
        keeps c
          (link_off h pre lo hi post xs o c (elim w [ inl a ↦ inl a | inr b ↦ inr (inl b) ])) in
      (
        us ++ vs,
        subst (λ l. IsWithout l p (us ++ vs)) (sym e)
            (without us p vs (subst AreSpaced e o.spaced)),
        lists,
        Tiles-same h.array (remove p h).array 2 pre
            (λ c t. keeps c (pre_tag_off h pre lo hi post xs o c t)) o.pre_tiles,
        Tiles-same h.array (remove p h).array hi post
            (λ c t. keeps c (post_tag_off h pre lo hi post xs o c t)) o.post_tiles,
        (
          wall 0 (inl (omega arith)) ∙ o.walls.0,
          wall 1 (inl (omega arith)) ∙ o.walls.1,
          wall (heap_len - 2) (inr (omega arith)) ∙ o.walls.2,
          wall (heap_len - 1) (inr (omega arith)) ∙ o.walls.3,
        ),
      )

abbrev pub taken_block : ℕ → Block
taken_block n = record { free = false; ints = n }

abbrev pub free_block_of : ℕ → Block
free_block_of n = record { free = true; ints = n }

module _ (h : Heap) (pre : List Block) (lo hi n : ℕ) (post : List Block) (xs : List ℕ) where
  -- The gap grows by a taken block behind it.
  pub absorb_taken : IsOpen h pre lo hi (taken_block n ∷ post) xs → IsOpen h pre lo (hi + n) post xs
  absorb_taken o = record {
    pre_tiles = o.pre_tiles;
    post_tiles = o.post_tiles.2;
    pre_ends = o.pre_ends;
    post_ends = o.post_ends;
    pre_big = o.pre_big;
    post_big = o.post_big.1;
    ordered = omega (arith, o.ordered);
    walls = o.walls;
    lists = o.lists;
    spaced = o.spaced;
    same = o.same;
    counted = o.counted;
  }

  -- The gap grows by a free block behind it, which leaves the list.
  pub absorb_free :
      IsOpen h pre lo hi (free_block_of n ∷ post) xs
      → (ys : List ℕ) × ((remove hi h).array hi ≡ pos n)
        × IsOpen (remove hi h) pre lo (hi + n) post ys
  absorb_free o =
      let m : mem hi xs ≡ true = ground (arith, o.same hi) in
      let (ys, w, lists, pre_tiles, post_tiles, walls) =
        removed h pre lo hi (free_block_of n ∷ post) xs o hi m in
      (
        ys,
        post_tiles.0,
        record {
          pre_tiles = pre_tiles;
          post_tiles = post_tiles.2;
          pre_ends = o.pre_ends;
          post_ends = o.post_ends;
          pre_big = o.pre_big;
          post_big = o.post_big.1;
          ordered = omega (arith, o.ordered);
          walls = walls;
          lists = lists;
          spaced = w.spaced;
          same = λ y. w.same y ∙ split_off y o;
          counted = omega (arith, w.counted, o.counted);
        },
      )
    where
      split_off :
          (y : ℕ)
          → IsOpen h pre lo hi (free_block_of n ∷ post) xs
          → (mem y xs && not (y == hi)) ≡ (mem y (starts 2 pre) || mem y (starts (hi + n) post))
      split_off y o = elim (Bool-cases (y == hi)) [
        | inl e ↦
            let at : y ≡ hi = ground arith in
            let no_pre : mem y (starts 2 pre) ≡ false = absent y 2 pre (λ m.
              let (a, b) = start_range y 2 pre o.pre_big m in
              omega (arith, b, o.pre_ends, o.ordered)) in
            let no_post : mem y (starts (hi + n) post) ≡ false = absent y (hi + n) post (λ m.
              let (a, b) = start_range y (hi + n) post o.post_big.1 m in
              omega (arith, a, o.post_big.0)) in
            ground arith
        | inr e ↦ ground (arith, o.same y)
      ]

-- The gap grows by a free block before it, which leaves the list.
pub absorb_free_before :
    (h : Heap) (pre : List Block) (n lo hi : ℕ) (post : List Block) (xs : List ℕ)
    → IsOpen h (pre ++ free_block_of n ∷ []) lo hi post xs
    → (ends 2 pre + n ≡ lo)
      × ((remove (ends 2 pre) h).array (ends 2 pre) ≡ pos n)
      × (ys : List ℕ) × IsOpen (remove (ends 2 pre) h) pre (ends 2 pre) hi post ys
absorb_free_before h pre n lo hi post xs o =
    let p = ends 2 pre in
    let end : p + n ≡ lo = sym (ends-append 2 pre (free_block_of n ∷ [])) ∙ o.pre_ends in
    let m : mem p xs ≡ true = ground (arith, o.same p, mem-starts p 2 pre (free_block_of n ∷ [])) in
    let (ys, w, lists, pre_tiles, post_tiles, walls) =
      removed h (pre ++ free_block_of n ∷ []) lo hi post xs o p m in
    let (big, big_n) = AreBig-split pre (free_block_of n ∷ []) o.pre_big in
    let kept = Tiles-split (remove p h).array 2 pre (free_block_of n ∷ []) pre_tiles in
    (
      end,
      kept.1.0,
      ys,
      record {
        pre_tiles = kept.0;
        post_tiles = post_tiles;
        pre_ends = refl;
        post_ends = o.post_ends;
        pre_big = big;
        post_big = o.post_big;
        ordered = omega (arith, o.ordered, end);
        walls = walls;
        lists = lists;
        spaced = w.spaced;
        same = λ y. w.same y ∙ split_off y o end big big_n;
        counted = omega (arith, w.counted, o.counted, frees-append pre (free_block_of n ∷ []));
      },
    )
  where
    split_off :
        (y : ℕ)
        → IsOpen h (pre ++ free_block_of n ∷ []) lo hi post xs
        → ends 2 pre + n ≡ lo
        → AreBig pre
        → AreBig (free_block_of n ∷ [])
        → (mem y xs && not (y == ends 2 pre)) ≡ (mem y (starts 2 pre) || mem y (starts hi post))
    split_off y o end big big_n = elim (Bool-cases (y == ends 2 pre)) [
      | inl e ↦
          let at : y ≡ ends 2 pre = ground arith in
          let no_pre =
            absent y 2 pre (λ m. let (a, b) = start_range y 2 pre big m in omega (arith, b)) in
          let no_post = absent y hi post (λ m.
            let (a, b) = start_range y hi post o.post_big m in
            omega (arith, a, o.ordered, end, big_n.0)) in
          ground (arith, no_pre, no_post)
      | inr e ↦ ground (arith, o.same y, mem-starts y 2 pre (free_block_of n ∷ []))
    ]
