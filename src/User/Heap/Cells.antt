-- ===== src/User/Heap/Cells.antt =====
-- Runs of blocks in the heap's array: their headers and footers.
use os_shell.Common.{
  ℕ, suc, ◌+◌, ◌-◌, ◌*◌, ◌<◌, ◌≤◌, ◌≡◌, refl, Bool, true, false, ◌||◌, ◌&&◌, not, ltb, List, [],
  ◌∷◌, ◌++◌, All, arith, ◌==◌, if◌then◌else◌, ◌∙◌, inl, inr, Bool-cases,
}
use os_shell.Common.Int.{ℤ, pos, neg_of}
use os_shell.User.Heap.{Array}

pub record Block : Type 0 where
  pub free : Bool
  pub ints : ℕ

-- What the header and the footer of a block hold.
abbrev pub tag : Block → ℤ
tag b = if b.free then pos b.ints else neg_of b.ints

-- The blocks stand one behind the other from index `i` on.
abbrev pub Tiles : Array → ℕ → List Block → Type 0
Tiles a i [] = Unit {0}
Tiles a i (b ∷ bs) = (a i ≡ tag b) × (a (i + b.ints - 1) ≡ tag b) × Tiles a (i + b.ints) bs

abbrev pub ends : ℕ → List Block → ℕ
ends i [] = i
ends i (b ∷ bs) = ends (i + b.ints) bs

abbrev pub AreBig : List Block → Type 0
AreBig = All (λ b. 4 ≤ b.ints)

-- Is `c` the index of a header or a footer, or of a cell of a taken block?
abbrev pub is_tag : ℕ → ℕ → List Block → Bool
is_tag c i [] = false
is_tag c i (b ∷ bs) =
    c == i
    || (c == i + b.ints - 1
        || ((not b.free && (ltb i c && ltb c (i + b.ints))) || is_tag c (i + b.ints) bs))

abbrev pub mem : ℕ → List ℕ → Bool
mem y [] = false
mem y (x ∷ xs) = y == x || mem y xs

-- Where the free blocks start, and how many they are.
abbrev pub starts : ℕ → List Block → List ℕ
starts i [] = []
starts i (b ∷ bs) = if b.free then i ∷ starts (i + b.ints) bs else starts (i + b.ints) bs

abbrev pub frees : List Block → ℕ
frees [] = 0
frees (b ∷ bs) = if b.free then suc (frees bs) else frees bs

pub ends-append : (i : ℕ) (xs ys : List Block) → ends i (xs ++ ys) ≡ ends (ends i xs) ys
ends-append i [] ys = refl
ends-append i (x ∷ xs) ys = ends-append (i + x.ints) xs ys

pub frees-append : (xs ys : List Block) → frees (xs ++ ys) ≡ frees xs + frees ys
frees-append [] ys = omega arith
frees-append (x ∷ xs) ys = ground (arith, frees-append xs ys)

pub Tiles-join :
    (a : Array) (i : ℕ) (xs ys : List Block)
    → Tiles a i xs
    → Tiles a (ends i xs) ys
    → Tiles a i (xs ++ ys)
Tiles-join a i [] ys t u = u
Tiles-join a i (x ∷ xs) ys t u = (t.0, t.1, Tiles-join a (i + x.ints) xs ys t.2 u)

pub Tiles-split :
    (a : Array) (i : ℕ) (xs ys : List Block)
    → Tiles a i (xs ++ ys)
    → Tiles a i xs × Tiles a (ends i xs) ys
Tiles-split a i [] ys t = (tt, t)
Tiles-split a i (x ∷ xs) ys t =
    let (u, v) = Tiles-split a (i + x.ints) xs ys t.2 in ((t.0, t.1, u), v)

pub AreBig-split : (xs ys : List Block) → AreBig (xs ++ ys) → AreBig xs × AreBig ys
AreBig-split [] ys h = (tt, h)
AreBig-split (x ∷ xs) ys h = let (u, v) = AreBig-split xs ys h.1 in ((h.0, u), v)

pub AreBig-join : (xs ys : List Block) → AreBig xs → AreBig ys → AreBig (xs ++ ys)
AreBig-join [] ys h k = k
AreBig-join (x ∷ xs) ys h k = (h.0, AreBig-join xs ys h.1 k)

pub mem-starts :
    (y i : ℕ) (xs ys : List Block)
    → mem y (starts i (xs ++ ys)) ≡ (mem y (starts i xs) || mem y (starts (ends i xs) ys))
mem-starts y i [] ys = refl
mem-starts y i (x ∷ xs) ys = ground (arith, mem-starts y (i + x.ints) xs ys)

pub ends-le : (i : ℕ) (bs : List Block) → i ≤ ends i bs
ends-le i [] = omega arith
ends-le i (b ∷ bs) = omega (arith, ends-le (i + b.ints) bs)

-- A free block has room for its links.
pub start_range :
    (x i : ℕ) (bs : List Block)
    → AreBig bs
    → mem x (starts i bs) ≡ true
    → (i ≤ x) × (x + 4 ≤ ends i bs)
start_range x i [] h m = absurd (ground arith)
start_range x i (b ∷ bs) h m = elim (Bool-cases (mem x (starts (i + b.ints) bs))) [
  | inl e ↦ let (lo, hi) = start_range x (i + b.ints) bs h.1 e in (omega arith, hi)
  | inr e ↦
      let here : x ≡ i = ground arith in (omega arith, omega (arith, ends-le (i + b.ints) bs, h.0))
]

pub frees-le : (i : ℕ) (bs : List Block) → AreBig bs → i + 4 * frees bs ≤ ends i bs
frees-le i [] h = omega arith
frees-le i (b ∷ bs) h = ground (arith, frees-le (i + b.ints) bs h.1, h.0)

-- The indices that are no tags: those outside of the run, and the links of a free block.
pub tag_below : (c i : ℕ) (bs : List Block) → AreBig bs → c < i → is_tag c i bs ≡ false
tag_below c i [] h lt = refl
tag_below c i (b ∷ bs) h lt =
    let big : 4 ≤ b.ints = h.0 in ground (arith, tag_below c (i + b.ints) bs h.1 (omega arith))

pub tag_above : (c i : ℕ) (bs : List Block) → AreBig bs → ends i bs ≤ c → is_tag c i bs ≡ false
tag_above c i [] h le = refl
tag_above c i (b ∷ bs) h le =
    let big : 4 ≤ b.ints = h.0 in
    ground (arith, tag_above c (i + b.ints) bs h.1 le, ends-le (i + b.ints) bs)

pub tag_link :
    (c x i : ℕ) (bs : List Block)
    → AreBig bs
    → mem x (starts i bs) ≡ true
    → x < c
    → c < x + 3
    → is_tag c i bs ≡ false
tag_link c x i [] h m lo hi = absurd (ground arith)
tag_link c x i (b ∷ bs) h m lo hi = elim (Bool-cases (mem x (starts (i + b.ints) bs))) [
  | inl e ↦
      let inside = start_range x (i + b.ints) bs h.1 e in
      ground (arith, tag_link c x (i + b.ints) bs h.1 e lo hi, inside.0, h.0)
  | inr e ↦
      let here : x ≡ i = ground arith in
      ground (arith, tag_below c (i + b.ints) bs h.1 (omega (arith, h.0)), h.0)
]

-- Only the tags count.
pub Tiles-same :
    (a a' : Array) (i : ℕ) (bs : List Block)
    → ((c : ℕ) → is_tag c i bs ≡ true → a' c ≡ a c)
    → Tiles a i bs
    → Tiles a' i bs
Tiles-same a a' i [] same t = tt
Tiles-same a a' i (b ∷ bs) same t = (
  same i (ground arith) ∙ t.0,
  same (i + b.ints - 1) (ground arith) ∙ t.1,
  Tiles-same a a' (i + b.ints) bs (λ c m. same c (ground (arith, m))) t.2,
)

-- A cell of the blocks behind a block.
pub tag_behind :
    (c i : ℕ) (b : Block) (bs : List Block)
    → is_tag c (i + b.ints) bs ≡ true
    → is_tag c i (b ∷ bs) ≡ true
tag_behind c i b bs m = ground (arith, m)
