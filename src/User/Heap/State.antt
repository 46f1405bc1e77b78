-- ===== src/User/Heap/State.antt =====
-- The heap between its operations, and in the middle of one.
use os_shell.Common.{
  ℕ, ◌+◌, ◌-◌, ◌<◌, ◌≤◌, ◌≡◌, refl, ◌≢◌, true, false, ◌||◌, List, [], ◌++◌, All, arith, length, ◌∙◌,
  sym, inl, inr, ◌⊎◌, Bool-cases, subst,
}
use os_shell.Common.Int.{neg_of}
use os_shell.User.Heap.{Array, Heap, heap_len}
use os_shell.User.Heap.Cells.{
  Block, Tiles, ends, AreBig, is_tag, mem, starts, frees, ends-append, frees-append, Tiles-join,
  Tiles-split, AreBig-split, AreBig-join, mem-starts, ends-le, start_range, tag_below, tag_above,
  tag_link,
}
use os_shell.User.Heap.Links.{AreSpaced, is_link, link_mem, All-of_mem}
use os_shell.User.Heap.Remove.{Lists}

-- The four cells of the two blocks at the ends, which are never free.
abbrev pub AreWalls : Array → Type 0
AreWalls a =
    (a 0 ≡ neg_of 2)
    × (a 1 ≡ neg_of 2)
    × (a (heap_len - 2) ≡ neg_of 2)
    × (a (heap_len - 1) ≡ neg_of 2)

-- Blocks up to `lo` and from `hi` on; whatever stands between belongs to the operation at work. The
-- list holds the free blocks of both runs.
pub record IsOpen (h : Heap) (pre : List Block) (lo hi : ℕ) (post : List Block) (xs : List ℕ)
    : Type 0 where
  pub pre_tiles : Tiles h.array 2 pre
  pub post_tiles : Tiles h.array hi post
  pub pre_ends : ends 2 pre ≡ lo
  pub post_ends : ends hi post ≡ heap_len - 2
  pub pre_big : AreBig pre
  pub post_big : AreBig post
  pub ordered : lo ≤ hi
  pub walls : AreWalls h.array
  pub lists : Lists h xs
  pub spaced : AreSpaced xs
  pub same : (y : ℕ) → mem y xs ≡ (mem y (starts 2 pre) || mem y (starts hi post))
  pub counted : length xs ≡ frees pre + frees post

-- Between two operations: the blocks fill the array between the walls.
abbrev pub IsHeap : Heap → List Block → List ℕ → Type 0
IsHeap h bs xs = IsOpen h bs (heap_len - 2) (heap_len - 2) [] xs

module _ (h : Heap) (pre post : List Block) (xs : List ℕ) where
  -- A heap can be opened anywhere between two blocks, and closed again.
  pub part_at : IsHeap h (pre ++ post) xs → IsOpen h pre (ends 2 pre) (ends 2 pre) post xs
  part_at o =
      let (l, r) = Tiles-split h.array 2 pre post o.pre_tiles in
      let (bl, br) = AreBig-split pre post o.pre_big in
      record {
        pre_tiles = l;
        post_tiles = r;
        pre_ends = refl;
        post_ends = sym (ends-append 2 pre post) ∙ o.pre_ends;
        pre_big = bl;
        post_big = br;
        ordered = omega arith;
        walls = o.walls;
        lists = o.lists;
        spaced = o.spaced;
        same = λ y. ground (arith, o.same y, mem-starts y 2 pre post);
        counted = omega (arith, o.counted, frees-append pre post);
      }

  pub join_at : (lo : ℕ) → IsOpen h pre lo lo post xs → IsHeap h (pre ++ post) xs
  join_at lo o = record {
    pre_tiles = Tiles-join h.array 2 pre post o.pre_tiles (rw o.pre_ends o.post_tiles);
    post_tiles = tt;
    pre_ends = ends-append 2 pre post ∙ rw o.pre_ends o.post_ends;
    post_ends = refl;
    pre_big = AreBig-join pre post o.pre_big o.post_big;
    post_big = tt;
    ordered = omega arith;
    walls = o.walls;
    lists = o.lists;
    spaced = o.spaced;
    same = λ y.
        let e = o.pre_ends in
        ground (
          arith,
          o.same y,
          subst
              (λ i.
                mem y (starts 2 (pre ++ post)) ≡ (mem y (starts 2 pre) || mem y (starts i post)))
              e (mem-starts y 2 pre post),
        );
    counted = omega (arith, o.counted, frees-append pre post);
  }

module _ (h : Heap) (pre : List Block) (lo hi : ℕ) (post : List Block) (xs : List ℕ)
    (o : IsOpen h pre lo hi post xs) where
  -- Where a node of the list can be.
  pub node_range :
      (x : ℕ) → mem x xs ≡ true → (2 ≤ x) × (x + 4 ≤ heap_len - 2) × ((x + 4 ≤ lo) ⊎ (hi ≤ x))
  node_range x m = elim (Bool-cases (mem x (starts 2 pre))) [
    | inl e ↦
        let (a, b) = start_range x 2 pre o.pre_big e in
        (
          a,
          omega (arith, b, o.pre_ends, o.ordered, o.post_ends, ends-le hi post),
          inl (omega (arith, b, o.pre_ends)),
        )
    | inr e ↦
        let e' : mem x (starts hi post) ≡ true = ground (arith, o.same x) in
        let (a, b) = start_range x hi post o.post_big e' in
        (
          omega (arith, a, o.ordered, o.pre_ends, ends-le 2 pre),
          omega (arith, b, o.post_ends),
          inr a,
        )
  ]

  -- A link of a node is not a tag.
  link_untagged :
      (c x : ℕ)
      → mem x xs ≡ true
      → x < c
      → c < x + 3
      → (is_tag c 2 pre ≡ false) × (is_tag c hi post ≡ false)
  link_untagged c x m above below = elim (Bool-cases (mem x (starts 2 pre))) [
    | inl e ↦
        let (a, b) = start_range x 2 pre o.pre_big e in
        (
          tag_link c x 2 pre o.pre_big e above below,
          tag_below c hi post o.post_big (omega (arith, b, o.pre_ends, o.ordered)),
        )
    | inr e ↦
        let e' : mem x (starts hi post) ≡ true = ground (arith, o.same x) in
        let (a, b) = start_range x hi post o.post_big e' in
        (
          tag_above c 2 pre o.pre_big (omega (arith, a, o.pre_ends, o.ordered)),
          tag_link c x hi post o.post_big e' above below,
        )
  ]

  pub pre_tag_off : (c : ℕ) → is_tag c 2 pre ≡ true → is_link c xs ≡ false
  pre_tag_off c t = elim (Bool-cases (is_link c xs)) [
    | inl e ↦
        let (x, m, above, below) = link_mem c xs e in
        absurd (ground (arith, t, (link_untagged c x m above below).0))
    | inr e ↦ e
  ]

  pub post_tag_off : (c : ℕ) → is_tag c hi post ≡ true → is_link c xs ≡ false
  post_tag_off c t = elim (Bool-cases (is_link c xs)) [
    | inl e ↦
        let (x, m, above, below) = link_mem c xs e in
        absurd (ground (arith, t, (link_untagged c x m above below).1))
    | inr e ↦ e
  ]

  -- No link stands on a wall or between the two runs.
  pub link_off :
      (c : ℕ) → (c < 2) ⊎ (heap_len - 2 ≤ c) ⊎ ((lo ≤ c) × (c < hi)) → is_link c xs ≡ false
  link_off c w = elim (Bool-cases (is_link c xs)) [
    | inl e ↦
        let (x, m, above, below) = link_mem c xs e in
        absurd (omega (arith, w, node_range x m, above, below))
    | inr e ↦ e
  ]

  pub nodes : All (λ x. x ≢ 0) xs
  nodes = All-of_mem xs (λ y m e. omega (arith, (node_range y m).0))
