-- ===== src/User/Heap/Fill.antt =====
-- `make_taken` and `make_avail` fill the gap.
use os_shell.Common.{
  ℕ, ◌+◌, ◌-◌, ◌<◌, ◌≤◌, ◌≡◌, refl, ◌≢◌, Bool, false, ◌||◌, List, [], ◌∷◌, ◌++◌, arith, ◌==◌,
  if◌then◌else◌, ap, ◌∙◌, sym, inl, inr, ◌⊎◌, ==_ne, ==_refl, subst,
}
use os_shell.Common.Int.{ℤ, pos, neg_of}
use os_shell.User.Heap.{
  Array, Heap, put, heap_len, abs, set_tags, next, prev, make_taken, make_avail,
}
use os_shell.User.Heap.Cells.{Block, Tiles, mem, starts, Tiles-same}
use os_shell.User.Heap.Links.{Seg, Seg-prev, put_ne, All-of_mem, is_link}
use os_shell.User.Heap.State.{IsOpen, AreWalls, node_range, pre_tag_off, post_tag_off, link_off}
use os_shell.User.Heap.Open.{taken_block, free_block_of}
use os_shell.User.Heap.Gap.{put_gap, fill_taken}

pub abs-neg_of : (n : ℕ) → abs (neg_of n) ≡ n
abs-neg_of n = ground arith

pub set_tags-put :
    (i n : ℕ) (v : ℤ) (a : Array) → abs v ≡ n → set_tags i v a ≡ put (i + n - 1) v (put i v a)
set_tags-put i n v a e = rw (==_refl i, e) refl

put_eq : (i : ℕ) (v : ℤ) (a : Array) → put i v a i ≡ v
put_eq i v a = rw (==_refl i) refl

module _ (h : Heap) (pre : List Block) (lo hi n : ℕ) (post : List Block) (xs : List ℕ)
    (o : IsOpen h pre lo hi post xs) (big : 4 ≤ n) where
  -- The heap with the two tags of a block of `n` at the front of the gap.
  abbrev tagged : ℤ → Heap
  tagged v = record h { array = put (lo + n - 1) v (put lo v h.array) }

  tagged-IsOpen : (v : ℤ) → lo + n ≤ hi → IsOpen (tagged v) pre lo hi post xs
  tagged-IsOpen v fits =
      put_gap (record h { array = put lo v h.array }) pre lo hi post xs
        (put_gap h pre lo hi post xs o lo v (omega arith) (omega arith)) (lo + n - 1) v
        (omega arith) (omega arith)

  tagged_front : (v : ℤ) → put (lo + n - 1) v (put lo v h.array) lo ≡ v
  tagged_front v =
      put_ne (put lo v h.array) lo (lo + n - 1) v (λ e. omega (arith, big)) ∙ put_eq lo v h.array

  -- `make_taken` at the front of the gap makes a taken block of it.
  pub make_taken_lem :
      lo + n ≤ hi → IsOpen (make_taken lo n h) (pre ++ taken_block n ∷ []) (lo + n) hi post xs
  unfolding make_taken
  make_taken_lem fits =
      subst (λ a. IsOpen (record h { array = a }) (pre ++ taken_block n ∷ []) (lo + n) hi post xs)
        (sym (set_tags-put lo n (neg_of n) h.array (abs-neg_of n)))
        (fill_taken (tagged (neg_of n)) pre lo hi post xs (tagged-IsOpen (neg_of n) fits) n big fits
          (tagged_front (neg_of n)) (put_eq (lo + n - 1) (neg_of n) (put lo (neg_of n) h.array)))

or_move : (c m a b : Bool) → m ≡ (a || b) → (c || m) ≡ (a || (c || b))
or_move c m a b e = ground arith

-- A free block fills the gap once its tags and links are written, and the old first node knows it.
fill_free :
    (h : Heap) (pre : List Block) (lo n : ℕ) (post : List Block) (xs : List ℕ)
    → 4 ≤ n
    → IsOpen h pre lo (lo + n) post xs
    → (h' : Heap) → h'.avail ≡ lo
    → Tiles h'.array 2 pre
    → Tiles h'.array lo (free_block_of n ∷ post)
    → AreWalls h'.array
    → Seg h'.array 0 (lo ∷ xs) 0
    → IsOpen h' pre lo lo (free_block_of n ∷ post) (lo ∷ xs)
fill_free h pre lo n post xs big o h' first pre_tiles post_tiles walls seg = record {
  pre_tiles = pre_tiles;
  post_tiles = post_tiles;
  pre_ends = o.pre_ends;
  post_ends = o.post_ends;
  pre_big = o.pre_big;
  post_big = (big, o.post_big);
  ordered = omega arith;
  walls = walls;
  lists = (seg, first);
  spaced =
      (All-of_mem xs (λ y m. apart y (node_range h pre lo (lo + n) post xs o y m).2), o.spaced);
  same = λ y.
      or_move (y == lo) (mem y xs) (mem y (starts 2 pre)) (mem y (starts (lo + n) post)) (o.same y);
  counted = omega (arith, o.counted);
}
  where
    apart : (y : ℕ) → (y + 4 ≤ lo) ⊎ (lo + n ≤ y) → (lo + 4 ≤ y) ⊎ (y + 4 ≤ lo)
    apart y (inl a) = inr a
    apart y (inr b) = inl (omega arith)

module _ (h : Heap) (pre : List Block) (lo n : ℕ) (post : List Block) (big : 4 ≤ n) where
  abbrev linked : Array
  linked = prev lo 0 (next lo h.avail (put (lo + n - 1) (pos n) (put lo (pos n) h.array)))

  pub make_avail-eq :
      make_avail lo n h
      ≡ record { array = if h.avail == 0 then linked else prev h.avail lo linked; avail = lo }
  unfolding make_avail
  make_avail-eq = rw (set_tags-put lo n (pos n) h.array (omega arith)) refl

  abbrev linked_heap : Heap
  linked_heap = record h { array = linked }

  linked-IsOpen :
      (xs : List ℕ) → IsOpen h pre lo (lo + n) post xs → IsOpen linked_heap pre lo (lo + n) post xs
  linked-IsOpen xs o =
      let h1 = tagged h pre lo (lo + n) n post xs o big (pos n) in
      let o1 = tagged-IsOpen h pre lo (lo + n) n post xs o big (pos n) (omega arith) in
      let o2 =
        put_gap h1 pre lo (lo + n) post xs o1 (lo + 1) (pos h.avail) (omega arith) (omega arith) in
      put_gap (record h { array = next lo h.avail h1.array }) pre lo (lo + n) post xs o2 (lo + 2)
        (pos 0) (omega arith) (omega arith)

  linked_tags :
      (linked lo ≡ pos n)
      × (linked (lo + n - 1) ≡ pos n)
      × (linked (lo + 2) ≡ pos 0)
      × (linked (lo + 1) ≡ pos h.avail)
  linked_tags = (ground arith, ground arith, ground arith, ground arith)

-- `make_avail` of the whole gap makes a free block of it, the first in the list.
pub make_avail_lem :
    (h : Heap) (pre : List Block) (lo n : ℕ) (post : List Block) (xs : List ℕ)
    → 4 ≤ n
    → IsOpen h pre lo (lo + n) post xs
    → IsOpen (make_avail lo n h) pre lo lo (free_block_of n ∷ post) (lo ∷ xs)
make_avail_lem h pre lo n post [] big o =
    let o' = linked-IsOpen h pre lo n post big [] o in
    let (front, back, before, after) = linked_tags h pre lo n post big in
    let none_yet : h.avail ≡ 0 = o.lists.1 in
    subst (λ t. IsOpen t pre lo lo (free_block_of n ∷ post) (lo ∷ []))
      (sym (make_avail-eq h pre lo n post big ∙ rw none_yet refl))
      (fill_free h pre lo n post [] big o
        (record { array = linked h pre lo n post big; avail = lo }) refl o'.pre_tiles
        (front, back, o'.post_tiles) o'.walls (before, after ∙ ap pos none_yet, tt))
make_avail_lem h pre lo n post (x ∷ xs) big o =
    let o' = linked-IsOpen h pre lo n post big (x ∷ xs) o in
    let old = linked h pre lo n post big in
    let new : Array = prev x lo old in
    let keeps : (c : ℕ) → is_link c (x ∷ xs) ≡ false → new c ≡ old c =
      λ c f. put_ne old c (x + 2) (pos lo) (not_link c x xs f) in
    let outside : (c : ℕ)
        → (c < 2) ⊎ (heap_len - 2 ≤ c) ⊎ ((lo ≤ c) × (c < lo + n))
        → new c ≡ old c =
      λ c w.
        keeps c (link_off (linked_heap h pre lo n post big) pre lo (lo + n) post (x ∷ xs) o' c w) in
    let (front, back, before, after) = linked_tags h pre lo n post big in
    let in_gap : (c : ℕ) → lo ≤ c → c < lo + n → new c ≡ old c =
      λ c a b. outside c (inr (inr (a, b))) in
    let at_x : h.avail ≡ x = o.lists.1 in
    let nonzero : x ≢ 0 = λ e.
      omega (arith, (node_range h pre lo (lo + n) post (x ∷ xs) o x (rw (==_refl x) refl)).0) in
    subst (λ t. IsOpen t pre lo lo (free_block_of n ∷ post) (lo ∷ x ∷ xs))
      (sym (make_avail-eq h pre lo n post big ∙ avail_some h lo old x at_x nonzero))
      (fill_free h pre lo n post (x ∷ xs) big o (record { array = new; avail = lo }) refl
        (Tiles-same old new 2 pre
          (λ c t.
            keeps c
              (pre_tag_off (linked_heap h pre lo n post big) pre lo (lo + n) post (x ∷ xs) o' c t))
          o'.pre_tiles)
        (
          in_gap lo (omega arith) (omega arith) ∙ front,
          in_gap (lo + n - 1) (omega arith) (omega arith) ∙ back,
          Tiles-same old new (lo + n) post
              (λ c t. keeps c (
                post_tag_off (linked_heap h pre lo n post big) pre lo (lo + n) post (x ∷ xs) o' c
                  t))
              o'.post_tiles,
        )
        (
          outside 0 (inl (omega arith)) ∙ o'.walls.0,
          outside 1 (inl (omega arith)) ∙ o'.walls.1,
          outside (heap_len - 2) (inr (inl (omega arith))) ∙ o'.walls.2,
          outside (heap_len - 1) (inr (inl (omega arith))) ∙ o'.walls.3,
        )
        (
          in_gap (lo + 2) (omega arith) (omega arith) ∙ before,
          in_gap (lo + 1) (omega arith) (omega arith) ∙ after ∙ ap pos at_x,
          Seg-prev old 0 0 lo x xs o'.spaced o'.lists.0,
        ))
  where
    not_link : (c x : ℕ) (xs : List ℕ) → is_link c (x ∷ xs) ≡ false → c ≢ x + 2
    not_link c x xs f = λ e. ground (arith, f)

    avail_some :
        (h : Heap) (lo : ℕ) (old : Array) (x : ℕ)
        → h.avail ≡ x
        → x ≢ 0
        → Path Heap
            (record { array = if h.avail == 0 then old else prev h.avail lo old; avail = lo })
            (record { array = prev x lo old; avail = lo })
    avail_some h lo old x e nz = rw (e, ==_ne x 0 nz) refl
