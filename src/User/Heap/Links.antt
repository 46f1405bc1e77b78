-- ===== src/User/Heap/Links.antt =====
-- The doubly linked list of free blocks.
use os_shell.Common.{
  ℕ, ◌+◌, ◌<◌, ◌≤◌, ◌≡◌, refl, ◌≢◌, Bool, true, false, not, ◌&&◌, ◌||◌, List, [], ◌∷◌, ◌++◌, All,
  arith, ◌==◌, ap, ◌∙◌, inl, inr, ◌⊎◌, Bool-cases, ==_ne,
}
use os_shell.Common.Int.{ℤ, pos}
use os_shell.User.Heap.{Array, put}
use os_shell.User.Heap.Cells.{mem}

abbrev pub head_or : ℕ → List ℕ → ℕ
head_or d [] = d
head_or d (x ∷ xs) = x

abbrev pub last_or : ℕ → List ℕ → ℕ
last_or d [] = d
last_or d (x ∷ xs) = last_or x xs

-- A stretch of the list, between the node `before` and the node `after`; 0 is no node.
abbrev pub Seg : Array → ℕ → List ℕ → ℕ → Type 0
Seg a before [] after = Unit {0}
Seg a before (x ∷ xs) after =
    (a (x + 2) ≡ pos before) × (a (x + 1) ≡ pos (head_or after xs)) × Seg a x xs after

abbrev pub AreApart : ℕ → List ℕ → Type 0
AreApart x = All (λ y. (x + 4 ≤ y) ⊎ (y + 4 ≤ x))

abbrev pub AreSpaced : List ℕ → Type 0
AreSpaced [] = Unit {0}
AreSpaced (x ∷ xs) = AreApart x xs × AreSpaced xs

-- Is `c` the index of a link of one of the nodes?
abbrev pub is_link : ℕ → List ℕ → Bool
is_link c [] = false
is_link c (x ∷ xs) = c == x + 1 || (c == x + 2 || is_link c xs)

pub Seg-split :
    (a : Array) (before after : ℕ) (us vs : List ℕ)
    → Seg a before (us ++ vs) after
    → Seg a before us (head_or after vs) × Seg a (last_or before us) vs after
Seg-split a before after [] vs s = (tt, s)
Seg-split a before after (x ∷ []) vs s = ((s.0, s.1, tt), s.2)
Seg-split a before after (x ∷ y ∷ us) vs s =
    let (l, r) = Seg-split a x after (y ∷ us) vs s.2 in ((s.0, s.1, l), r)

pub Seg-join :
    (a : Array) (before after : ℕ) (us vs : List ℕ)
    → Seg a before us (head_or after vs)
    → Seg a (last_or before us) vs after
    → Seg a before (us ++ vs) after
Seg-join a before after [] vs l r = r
Seg-join a before after (x ∷ []) vs l r = (l.0, l.1, r)
Seg-join a before after (x ∷ y ∷ us) vs l r = (l.0, l.1, Seg-join a x after (y ∷ us) vs l.2 r)

-- Only the links count.
pub Seg-same :
    (a a' : Array) (before after : ℕ) (xs : List ℕ)
    → ((c : ℕ) → is_link c xs ≡ true → a' c ≡ a c)
    → Seg a before xs after
    → Seg a' before xs after
Seg-same a a' before after [] same s = tt
Seg-same a a' before after (x ∷ xs) same s = (
  same (x + 2) (ground arith) ∙ s.0,
  same (x + 1) (ground arith) ∙ s.1,
  Seg-same a a' x after xs (λ c m. same c (ground (arith, m))) s.2,
)

-- A link of a node is not a link of nodes that are apart from it.
pub link_apart : (c x : ℕ) (xs : List ℕ) → AreApart x xs → x < c → c < x + 3 → is_link c xs ≡ false
link_apart c x [] h lo hi = refl
link_apart c x (y ∷ ys) h lo hi = ground (arith, h.0, link_apart c x ys h.1 lo hi)

pub link_mem :
    (c : ℕ) (xs : List ℕ)
    → is_link c xs ≡ true
    → (x : ℕ) × (mem x xs ≡ true) × (x < c) × (c < x + 3)
link_mem c [] h = absurd (ground arith)
link_mem c (x ∷ xs) h = elim (Bool-cases (is_link c xs)) [
  | inl e ↦ let (y, m, lo, hi) = link_mem c xs e in (y, ground (arith, m), lo, hi)
  | inr e ↦ (x, ground arith, ground arith, ground arith)
]

pub put_ne : (a : Array) (c i : ℕ) (v : ℤ) → c ≢ i → put i v a c ≡ a c
put_ne a c i v ne = rw (==_ne c i ne) refl

pub Seg-put :
    (a : Array) (c before after : ℕ) (v : ℤ) (xs : List ℕ)
    → is_link c xs ≡ false
    → Seg a before xs after
    → Seg (put c v a) before xs after
Seg-put a c before after v xs h =
    Seg-same a (put c v a) before after xs (λ d m. ground (arith, h, m))

-- The first node is told about a new node before it.
pub Seg-prev :
    (a : Array) (before after new : ℕ) (x : ℕ) (xs : List ℕ)
    → AreSpaced (x ∷ xs)
    → Seg a before (x ∷ xs) after
    → Seg (put (x + 2) (pos new) a) new (x ∷ xs) after
Seg-prev a before after new x xs sp s = (
  ground arith,
  ground (arith, s.1),
  Seg-put a (x + 2) x after (pos new) xs (link_apart (x + 2) x xs sp.0 (omega arith) (omega arith))
      s.2,
)

-- The last node is told about a new node behind it.
pub Seg-next :
    (a : Array) (before after new : ℕ) (x : ℕ) (xs : List ℕ)
    → AreSpaced (x ∷ xs)
    → Seg a before (x ∷ xs) after
    → Seg (put (last_or x xs + 1) (pos new) a) before (x ∷ xs) new
Seg-next a before after new x [] sp s = (ground (arith, s.0), ground arith, tt)
Seg-next a before after new x (y ∷ ys) sp s =
    let far = last_apart x y ys sp.0 in
    (
      put_ne a (x + 2) (last_or y ys + 1) (pos new) (λ e. omega (arith, far)) ∙ s.0,
      put_ne a (x + 1) (last_or y ys + 1) (pos new) (λ e. omega (arith, far)) ∙ s.1,
      Seg-next a x after new y ys sp.1 s.2,
    )
  where
    last_apart :
        (x y : ℕ) (ys : List ℕ)
        → AreApart x (y ∷ ys)
        → (x + 4 ≤ last_or y ys) ⊎ (last_or y ys + 4 ≤ x)
    last_apart x y [] h = h.0
    last_apart x y (z ∷ zs) h = last_apart x z zs h.1

-- Taking a node out of a spaced list.
pub AreApart-split :
    (x : ℕ) (us vs : List ℕ) → AreApart x (us ++ vs) → AreApart x us × AreApart x vs
AreApart-split x [] vs h = (tt, h)
AreApart-split x (u ∷ us) vs h = let (l, r) = AreApart-split x us vs h.1 in ((h.0, l), r)

AreApart-without : (x p : ℕ) (us vs : List ℕ) → AreApart x (us ++ p ∷ vs) → AreApart x (us ++ vs)
AreApart-without x p [] vs h = h.1
AreApart-without x p (u ∷ us) vs h = (h.0, AreApart-without x p us vs h.1)

pub AreSpaced-without :
    (p : ℕ) (us vs : List ℕ)
    → AreSpaced (us ++ p ∷ vs)
    → AreSpaced (us ++ vs) × AreApart p (us ++ vs)
AreSpaced-without p [] vs h = (h.1, h.0)
AreSpaced-without p (u ∷ us) vs h =
    let (sp, ap_p) = AreSpaced-without p us vs h.1 in
    let at : (u + 4 ≤ p) ⊎ (p + 4 ≤ u) = (AreApart-split u us (p ∷ vs) h.0).1.0 in
    ((AreApart-without u p us vs h.0, sp), (ground (arith, at), ap_p))

pub AreSpaced-split : (us vs : List ℕ) → AreSpaced (us ++ vs) → AreSpaced us × AreSpaced vs
AreSpaced-split [] vs h = (tt, h)
AreSpaced-split (u ∷ us) vs h =
    let (l, r) = AreSpaced-split us vs h.1 in (((AreApart-split u us vs h.0).0, l), r)

mem_apart : (p : ℕ) (xs : List ℕ) → AreApart p xs → mem p xs ≡ false
mem_apart p [] h = refl
mem_apart p (x ∷ xs) h = ground (arith, h.0, mem_apart p xs h.1)

mem-insert : (y p : ℕ) (us vs : List ℕ) → mem y (us ++ p ∷ vs) ≡ (y == p || mem y (us ++ vs))
mem-insert y p [] vs = refl
mem-insert y p (u ∷ us) vs = ground (arith, mem-insert y p us vs)

-- The other nodes are those that are left.
pub mem-without :
    (y p : ℕ) (us vs : List ℕ)
    → AreSpaced (us ++ p ∷ vs)
    → mem y (us ++ vs) ≡ (mem y (us ++ p ∷ vs) && not (y == p))
mem-without y p us vs sp =
    let gone = mem_apart p (us ++ vs) (AreSpaced-without p us vs sp).1 in
    elim (Bool-cases (y == p)) [
      | inl e ↦ let same : y ≡ p = ground arith in rw same (ground (arith, gone))
      | inr e ↦ ground (arith, mem-insert y p us vs)
    ]

pub mem_split :
    (p : ℕ) (xs : List ℕ) → mem p xs ≡ true → (us : List ℕ) × (vs : List ℕ) × (xs ≡ us ++ p ∷ vs)
mem_split p [] h = absurd (ground arith)
mem_split p (x ∷ xs) h = elim (Bool-cases (p == x)) [
  | inl e ↦ ([], xs, ground arith)
  | inr e ↦ let (us, vs, s) = mem_split p xs (ground arith) in (x ∷ us, vs, ap (λ l. x ∷ l) s)
]

pub All-of_mem : {P : ℕ → Type 0} (xs : List ℕ) → ((y : ℕ) → mem y xs ≡ true → P y) → All P xs
All-of_mem [] h = tt
All-of_mem (x ∷ xs) h = (h x (ground arith), All-of_mem xs (λ y m. h y (ground (arith, m))))
