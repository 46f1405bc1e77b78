-- ===== src/User/Heap/Gap.antt =====
-- The gap in a heap: writes into it, and a taken block at its front.
use os_shell.Common.{
  ℕ, ◌+◌, ◌-◌, ◌<◌, ◌≤◌, ◌≡◌, List, [], ◌∷◌, ◌++◌, arith, ap, ◌∙◌, sym, inr, subst,
}
use os_shell.Common.Int.{ℤ, neg_of}
use os_shell.User.Heap.{Heap, put, heap_len}
use os_shell.User.Heap.Cells.{
  Block, Tiles, ends-append, frees-append, mem-starts, ends-le, Tiles-same, Tiles-join, AreBig-join,
  tag_above, tag_below,
}
use os_shell.User.Heap.Links.{Seg-put, put_ne}
use os_shell.User.Heap.State.{IsOpen, link_off}
use os_shell.User.Heap.Open.{taken_block}

module _ (h : Heap) (pre : List Block) (lo hi : ℕ) (post : List Block) (xs : List ℕ)
    (o : IsOpen h pre lo hi post xs) where
  -- What is written into the gap concerns nobody else.
  pub put_gap :
      (c : ℕ) (v : ℤ)
      → lo ≤ c
      → c < hi
      → IsOpen (record h { array = put c v h.array }) pre lo hi post xs
  put_gap c v above below =
      let no_pre = tag_above c 2 pre o.pre_big (omega (arith, o.pre_ends)) in
      let no_post = tag_below c hi post o.post_big below in
      let no_link = link_off h pre lo hi post xs o c (inr (inr (above, below))) in
      let low : 2 ≤ c = omega (arith, above, o.pre_ends, ends-le 2 pre) in
      let high : c < heap_len - 2 = omega (arith, below, o.post_ends, ends-le hi post) in
      record {
        pre_tiles =
            Tiles-same h.array (put c v h.array) 2 pre
              (λ d t. put_ne h.array d c v (λ e. ground (arith, t, no_pre))) o.pre_tiles;
        post_tiles =
            Tiles-same h.array (put c v h.array) hi post
              (λ d t. put_ne h.array d c v (λ e. ground (arith, t, no_post))) o.post_tiles;
        pre_ends = o.pre_ends;
        post_ends = o.post_ends;
        pre_big = o.pre_big;
        post_big = o.post_big;
        ordered = o.ordered;
        walls = (
          put_ne h.array 0 c v (λ e. omega (arith, low)) ∙ o.walls.0,
          put_ne h.array 1 c v (λ e. omega (arith, low)) ∙ o.walls.1,
          put_ne h.array (heap_len - 2) c v (λ e. omega (arith, high)) ∙ o.walls.2,
          put_ne h.array (heap_len - 1) c v (λ e. omega (arith, high)) ∙ o.walls.3,
        );
        lists = (Seg-put h.array c 0 0 v xs no_link o.lists.0, o.lists.1);
        spaced = o.spaced;
        same = o.same;
        counted = o.counted;
      }

  -- A taken block at the front of the gap joins the blocks before it.
  pub fill_taken :
      (n : ℕ)
      → 4 ≤ n
      → lo + n ≤ hi
      → h.array lo ≡ neg_of n
      → h.array (lo + n - 1) ≡ neg_of n
      → IsOpen h (pre ++ taken_block n ∷ []) (lo + n) hi post xs
  fill_taken n big fits header footer =
      let one : List Block = taken_block n ∷ [] in
      let tiles : Tiles h.array lo one = (header, footer, tt) in
      record {
        pre_tiles =
            Tiles-join h.array 2 pre one o.pre_tiles
              (subst (λ i. Tiles h.array i one) (sym o.pre_ends) tiles);
        post_tiles = o.post_tiles;
        pre_ends = ends-append 2 pre one ∙ ap (λ i. i + n) o.pre_ends;
        post_ends = o.post_ends;
        pre_big = AreBig-join pre one o.pre_big (big, tt);
        post_big = o.post_big;
        ordered = fits;
        walls = o.walls;
        lists = o.lists;
        spaced = o.spaced;
        same = λ y. ground (arith, o.same y, mem-starts y 2 pre one);
        counted = omega (arith, o.counted, frees-append pre one);
      }
