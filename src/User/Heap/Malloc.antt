-- ===== src/User/Heap/Malloc.antt =====
-- `malloc` finds a free block that is large enough, if there is one.
use os_shell.Common.{
  ℕ, zero, suc, ◌+◌, ◌-◌, ◌<◌, ◌≤◌, ◌≡◌, refl, Bool, true, false, ◌&&◌, ◌||◌, Option, none, some,
  List, [], ◌∷◌, ◌++◌, All, arith, ◌==◌, leb, length, ap, ◌∙◌, sym, inl, inr, ◌⊎◌, Bool-cases,
  ==_ne, ==_refl, subst, append_assoc, append-nil,
}
use os_shell.Common.Int.{pos_part}
use os_shell.User.Heap.{
  Array, Heap, heap_len, abs, size, next1, take_block, malloc_loop, ints_of, malloc,
}
use os_shell.User.Heap.Cells.{Block, Tiles, ends, mem, starts, frees-le}
use os_shell.User.Heap.Links.{Seg, Seg-split, head_or}
use os_shell.User.Heap.State.{IsHeap, part_at, node_range}
use os_shell.User.Heap.Open.{free_block_of}
use os_shell.User.Heap.Payload.{payloads, payloads-same}
use os_shell.User.Heap.Split.{parts, take_block_lem}

-- A node of the list is where a free block starts.
find_block :
    (p i : ℕ) (bs : List Block)
    → mem p (starts i bs) ≡ true
    → (pre : List Block) × (n : ℕ) × (post : List Block) × (bs ≡ pre ++ free_block_of n ∷ post)
      × (ends i pre ≡ p)
find_block p i [] m = absurd (ground arith)
find_block p i (b ∷ bs) m = elim (Bool-cases (mem p (starts (i + b.ints) bs))) [
  | inl e ↦
      let (pre, n, post, s, t) = find_block p (i + b.ints) bs e in
      (b ∷ pre, n, post, ap (λ l. b ∷ l) s, t)
  | inr e ↦
      let is_free : b.free ≡ true = ground arith in
      ([], b.ints, bs, ap (λ f. record { free = f; ints = b.ints } ∷ bs) is_free, ground arith)
]

-- Is there a free block of at least `ints`?
abbrev pub has_room : ℕ → List Block → Bool
has_room ints [] = false
has_room ints (b ∷ bs) = (b.free && leb ints b.ints) || has_room ints bs

no_room :
    (a : Array) (ints i : ℕ) (bs : List Block)
    → Tiles a i bs
    → ((x : ℕ) → mem x (starts i bs) ≡ true → size a x < ints)
    → has_room ints bs ≡ false
no_room a ints i [] t small = refl
no_room a ints i (b ∷ bs) t small = elim (Bool-cases b.free) [
  | inl f ↦
      let sized : size a i ≡ b.ints = ap abs t.0 ∙ rw f (omega arith) in
      let here : size a i < ints = small i (rw (f, ==_refl i) refl) in
      let rest = no_room a ints (i + b.ints) bs t.2 (λ x m. small x (rw f (ground (arith, m)))) in
      ground (arith, sized, here, rest)
  | inr f ↦
      let rest = no_room a ints (i + b.ints) bs t.2 (λ x m. small x (rw f m)) in
      ground (arith, f, rest)
]

-- What the search for a block does.
abbrev pub Mallocs : ℕ → Heap → List Block → Option (Option ℕ × Heap) → Type 0
Mallocs ints h bs result =
    ((has_room ints bs ≡ false) × (result ≡ some (none, h)))
    ⊎ ((pre : List Block) × (n : ℕ) × (post : List Block) × (h' : Heap) × (xs' : List ℕ) × (bs
          ≡ pre ++ free_block_of n ∷ post)
        × (ints ≤ n)
        × (result ≡ some (some (ends 2 pre + 1), h'))
        × IsHeap h' (pre ++ (parts ints n ++ post)) xs'
        × (payloads h'.array 2 pre ≡ payloads h.array 2 pre)
        × (payloads h'.array (ends 2 pre + n) post ≡ payloads h.array (ends 2 pre + n) post))

mem_middle : (p : ℕ) (us vs : List ℕ) → mem p (us ++ p ∷ vs) ≡ true
mem_middle p [] vs = rw (==_refl p) refl
mem_middle p (u ∷ us) vs = ground (arith, mem_middle p us vs)

module _ (h : Heap) (bs : List Block) (xs : List ℕ) (o : IsHeap h bs xs) (ints : ℕ)
    (big : 4 ≤ ints) where
  abbrev TooSmall : List ℕ → Type 0
  TooSmall = All (λ x. size h.array x < ints)

  small_of_mem : (x : ℕ) (ys : List ℕ) → TooSmall ys → mem x ys ≡ true → size h.array x < ints
  small_of_mem x [] s m = absurd (ground arith)
  small_of_mem x (y ∷ ys) s m = elim (Bool-cases (x == y)) [
    | inl e ↦ let at : x ≡ y = ground arith in rw at s.0
    | inr e ↦ small_of_mem x ys s.1 (ground arith)
  ]

  TooSmall-snoc :
      (us : List ℕ) (p : ℕ) → TooSmall us → size h.array p < ints → TooSmall (us ++ p ∷ [])
  TooSmall-snoc [] p s l = (l, tt)
  TooSmall-snoc (u ∷ us) p s l = (s.0, TooSmall-snoc us p s.1 l)

  listed : (p : ℕ) → mem p xs ≡ mem p (starts 2 bs)
  listed p = ground (arith, o.same p)

  found :
      (p : ℕ)
      → mem p xs ≡ true
      → ints ≤ size h.array p
      → Mallocs ints h bs (some (some (p + 1), take_block p ints h))
  found p m fits =
      let (pre, n, post, s, at) = find_block p 2 bs (sym (listed p) ∙ m) in
      let o' = subst (λ l. IsHeap h l xs) s o in
      let sized : size h.array p ≡ n =
        ap (λ i. size h.array i) (sym at)
        ∙ ap abs (part_at h pre (free_block_of n ∷ post) xs o').post_tiles.0
        ∙ omega arith in
      let (ys, o'', (k_pre, k_post)) =
        take_block_lem h pre n post xs ints o' big (omega (arith, fits, sized)) in
      inr (
        pre,
        n,
        post,
        take_block p ints h,
        ys,
        s,
        omega (arith, fits, sized),
        ap (λ i. some (some (i + 1), take_block p ints h)) (sym at),
        subst (λ i. IsHeap (take_block i ints h) (pre ++ (parts ints n ++ post)) ys) at o'',
        subst (λ i. payloads (take_block i ints h).array 2 pre ≡ payloads h.array 2 pre) at
            (payloads-same h.array (take_block (ends 2 pre) ints h).array 2 pre k_pre),
        subst
            (λ i.
              payloads (take_block i ints h).array (ends 2 pre + n) post
              ≡ payloads h.array (ends 2 pre + n) post)
            at
            (payloads-same h.array (take_block (ends 2 pre) ints h).array (ends 2 pre + n) post
              k_post),
      )

  -- The search, with the nodes `us` behind it.
  search :
      (rounds : ℕ) (us vs : List ℕ)
      → xs ≡ us ++ vs
      → TooSmall us
      → length vs ≤ rounds
      → Mallocs ints h bs (malloc_loop rounds ints (head_or 0 vs) h)
  unfolding malloc_loop
  search rounds us [] e s enough =
      let all : TooSmall xs = rw (e, append-nil us) s in
      let none_fits =
        no_room h.array ints 2 bs o.pre_tiles (λ x m. small_of_mem x xs all (listed x ∙ m)) in
      inl (none_fits, ended rounds)
    where
      ended : (rounds : ℕ) → malloc_loop rounds ints 0 h ≡ some (none, h)
      ended zero = refl
      ended (suc r) = refl
  search zero us (p ∷ vs) e s enough = absurd (omega arith)
  search (suc rounds) us (zero ∷ vs) e s enough = absurd (
      omega (
        arith,
        (node_range h bs (heap_len - 2) (heap_len - 2) [] xs o 0 (rw e (mem_middle 0 us vs))).0,
      ))
  search (suc rounds) us (suc q ∷ vs) e s enough =
      elim (Bool-cases (leb ints (size h.array (suc q)))) [
        | inl fits ↦ rw fits (found (suc q) (rw e (mem_middle (suc q) us vs)) (ground arith))
        | inr short ↦
            let at =
              (Seg-split h.array 0 0 us (suc q ∷ vs)
                (subst (λ l. Seg h.array 0 l 0) e o.lists.0)).1 in
            let onward : next1 h.array (suc q) ≡ head_or 0 vs = ap pos_part at.1 in
            let behind = append_assoc us (suc q ∷ []) vs in
            rw (short, onward)
              (search rounds (us ++ suc q ∷ []) vs (e ∙ sym behind)
                (TooSmall-snoc us (suc q) s (ground arith)) (omega arith))
      ]

module _ (h : Heap) (bs : List Block) (xs : List ℕ) (o : IsHeap h bs xs) where
  -- In any heap, `malloc` of a number of bytes above 0 ends within its rounds. It returns null and
  -- leaves the heap as it is only if no free block has the number of `int`s that it asks for.
  -- Otherwise it returns a pointer behind the header of a block that was free and has that number,
  -- and leaves a heap with the same blocks but for this one, which is taken, as a whole or up to a
  -- free rest of at least four `int`s; the taken blocks before and behind it hold what they held.
  pub malloc_lem : (bytes : ℕ) → 0 < bytes → Mallocs (ints_of bytes) h bs (malloc bytes h)
  unfolding malloc
  malloc_lem bytes some_bytes =
      let short : length xs ≤ heap_len =
        omega (arith, o.counted, frees-le 2 bs o.pre_big, o.pre_ends) in
      rw (==_ne bytes 0 (λ e. omega arith)) (
        subst (λ p. Mallocs (ints_of bytes) h bs (malloc_loop heap_len (ints_of bytes) p h))
          (sym o.lists.1)
          (search h bs xs o (ints_of bytes) (omega arith) heap_len [] xs refl tt short))
