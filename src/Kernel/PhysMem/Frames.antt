-- ===== src/Kernel/PhysMem/Frames.antt =====
-- Who owns which frame.
use os_shell.Common.{
  ℕ, ◌+◌, ◌%◌, ◌^◌, ◌<◌, ◌≤◌, ◌≡◌, refl, ◌≢◌, Bool, true, false, none, some, List, [], ◌∷◌, All,
  arith, ◌==◌, if◌then◌else◌, ==_ne, ==_refl, Bool-cases, inl, inr,
}
use os_shell.Kernel.Queue.Fifo.{IsFresh}
use os_shell.Kernel.PhysMem.{
  Memory, frame_size, offset, bzero_frame, store, alloc_frame, dealloc_frame, init,
}
use os_shell.Kernel.PhysMem.Valid.{AreFree, IsValid, Chain-same, apart, own, disown, Allocated}

-- What is free after a frame is handed out was free before, and is another frame.
still_free :
    (start x : ℕ) (owned : ℕ → Bool) (m m' : Memory) (xs : List ℕ)
    → m.avail ≤ m'.avail
    → IsFresh x xs
    → AreFree start owned m xs
    → AreFree start (own owned x) m' xs
still_free start x owned m m' [] le f h = tt
still_free start x owned m m' (y ∷ ys) le f h =
    (ground arith, still_free start x owned m m' ys le f.1 h.1)

untouched :
    (start p : ℕ) (owned : ℕ → Bool) (m : Memory) (xs : List ℕ)
    → offset p ≡ 0
    → IsFresh p xs
    → AreFree start owned m xs
    → All (λ x. bzero_frame p m.words x ≡ m.words x) xs
untouched start p owned m [] hp f h = tt
untouched start p owned m (y ∷ ys) hp f h =
    (rw (apart p y hp h.0.0.0 f.0), untouched start p owned m ys hp f.1 h.1)

module _ (start : ℕ) (owned : ℕ → Bool) (m : Memory) where
  abbrev reused : ℕ → Memory
  reused x = record m { first_free = m.words x; words = bzero_frame x m.words }

  abbrev grown : Memory
  grown = record m { avail = (m.avail + frame_size) % 2 ^ 32; words = bzero_frame m.avail m.words }

  reuse :
      (x : ℕ) (xs : List ℕ) → IsValid start owned m (x ∷ xs) → alloc_frame m ≡ some (x, reused x)
  unfolding alloc_frame
  reuse x xs v = let first : m.first_free ≡ x = v.chain.0 in ground (arith, v.free_frames.0.0.0)

  reused-IsValid :
      (x : ℕ) (xs : List ℕ)
      → IsValid start owned m (x ∷ xs)
      → IsValid start (own owned x) (reused x) xs
  reused-IsValid x xs v =
      let other : IsFresh x xs = v.chain.2 in
      let at : offset x ≡ 0 = v.free_frames.0.0.0 in
      record {
        chain =
            Chain-same m.words (bzero_frame x m.words) (m.words x) xs
              (untouched start x owned m xs at other v.free_frames.1) v.chain.3;
        free_frames = still_free start x owned m (reused x) xs (omega arith) other v.free_frames.1;
        owned_frames = λ a h. ground (arith, v.owned_frames a, v.free_frames.0.0);
        above_null = v.above_null;
        start_in = v.start_in;
        start_at = v.start_at;
        avail_at = v.avail_at;
        limit_at = v.limit_at;
        avail_in = v.avail_in;
        limit_in = v.limit_in;
      }

  grow : IsValid start owned m [] → m.avail < m.limit → alloc_frame m ≡ some (m.avail, grown)
  unfolding alloc_frame
  grow v h = let first : m.first_free ≡ 0 = v.chain in ground (arith, v.avail_at)

  grown-IsValid :
      IsValid start owned m [] → m.avail < m.limit → IsValid start (own owned m.avail) grown []
  grown-IsValid v h = record {
    chain = v.chain;
    free_frames = tt;
    owned_frames = λ a e. ground (arith, v.owned_frames a);
    above_null = v.above_null;
    start_in = omega (arith, v.start_in, v.avail_at, v.limit_at, v.limit_in);
    start_at = v.start_at;
    avail_at = omega (arith, v.avail_at, v.limit_at, v.limit_in);
    limit_at = v.limit_at;
    avail_in = omega (arith, v.avail_at, v.limit_at, v.limit_in);
    limit_in = v.limit_in;
  }

  full : IsValid start owned m [] → m.avail ≡ m.limit → alloc_frame m ≡ none
  unfolding alloc_frame
  full v e = let first : m.first_free ≡ 0 = v.chain in ground arith

-- `alloc_frame` panics only when no frame is free and the range is used up. Otherwise it hands out a
-- frame that nobody owns, filled with zeros, leaves every word outside that frame as it is, and
-- leaves a valid memory in which that frame is owned.
pub alloc_frame_lem :
    (start : ℕ) (owned : ℕ → Bool) (m : Memory) (free : List ℕ)
    → IsValid start owned m free
    → Allocated start owned m free (alloc_frame m)
alloc_frame_lem start owned m [] v = elim (Bool-cases (m.avail == m.limit)) [
  | inl e ↦
      let same : m.avail ≡ m.limit = ground arith in inl (refl, same, full start owned m v same)
  | inr e ↦
      let more : m.avail < m.limit = ground (arith, v.avail_in) in
      inr (
        m.avail,
        grown start owned m,
        [],
        grow start owned m v more,
        ground (arith, v.owned_frames m.avail),
        λ a. refl,
        grown-IsValid start owned m v more,
      )
]
alloc_frame_lem start owned m (x ∷ xs) v = inr (
  x,
  reused start owned m x,
  xs,
  reuse start owned m x xs v,
  v.free_frames.0.1,
  λ a. refl,
  reused-IsValid start owned m x xs v,
)

owned_apart :
    (start p : ℕ) (owned : ℕ → Bool) (m : Memory) (xs : List ℕ)
    → owned p ≡ true
    → AreFree start owned m xs
    → IsFresh p xs × All (λ x. store p m.first_free m.words x ≡ m.words x) xs
owned_apart start p owned m [] o h = (tt, tt)
owned_apart start p owned m (x ∷ xs) o h =
    let (f, s) = owned_apart start p owned m xs o h.1 in
    let ne : p ≢ x = λ e. ground (arith, h.0.1) in
    ((ne, f), (rw (==_ne x p (λ e. ne (ground arith))), s))

disowned_free :
    (start p : ℕ) (owned : ℕ → Bool) (m m' : Memory) (xs : List ℕ)
    → m.avail ≡ m'.avail
    → AreFree start owned m xs
    → AreFree start (disown owned p) m' xs
disowned_free start p owned m m' [] e h = tt
disowned_free start p owned m m' (x ∷ xs) e h =
    (ground arith, disowned_free start p owned m m' xs e h.1)

-- A frame that is owned can be given back: nobody owns it then, it is the first to be handed out
-- again, and only its own first word is written, as a link to the frame that was first before.
pub dealloc_frame_lem :
    (start : ℕ) (owned : ℕ → Bool) (p : ℕ) (m : Memory) (free : List ℕ)
    → IsValid start owned m free
    → owned p ≡ true
    → (m' : Memory) × (dealloc_frame p m ≡ some m')
      × ((a : ℕ) → m'.words a ≡ (if a == p then m.first_free else m.words a))
      × IsValid start (disown owned p) m' (p ∷ free)
unfolding dealloc_frame
dealloc_frame_lem start owned p m free v o =
    let (at, above, inside) = v.owned_frames p o in
    let (fresh, same) = owned_apart start p owned m free o v.free_frames in
    let m' : Memory = record m { words = store p m.first_free m.words; first_free = p } in
    (
      m',
      rw at,
      λ a. refl,
      record {
        chain = (
          refl,
          (λ e. omega (arith, v.above_null)),
          fresh,
          rw (==_refl p) (Chain-same m.words m'.words m.first_free free same v.chain),
        );
        free_frames = (
          ((at, above, inside), rw (==_refl p)),
          disowned_free start p owned m m' free refl v.free_frames,
        );
        owned_frames = λ a h. ground (arith, v.owned_frames a);
        above_null = v.above_null;
        start_in = v.start_in;
        start_at = v.start_at;
        avail_at = v.avail_at;
        limit_at = v.limit_at;
        avail_in = v.avail_in;
        limit_in = v.limit_in;
      },
    )

-- After `init` of a range of whole frames above 0 and below 2 ^ 32, nobody owns a frame.
pub init-IsValid :
    (start size : ℕ) (words : ℕ → ℕ)
    → 0 < start
    → offset start ≡ 0
    → offset size ≡ 0
    → start + size < 2 ^ 32
    → (m : Memory) × (init start size words ≡ some m) × IsValid start (λ a. false) m []
unfolding init
init-IsValid start size words pos at at' small = (
  record { words = words; first_free = 0; avail = start; limit = (start + size) % 2 ^ 32 },
  ground arith,
  ground arith,
)
