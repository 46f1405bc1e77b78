-- ===== src/User/Heap/Joins.antt =====
-- A block and its neighbours: what `free` joins.
use os_shell.Common.{
  ℕ, ◌+◌, ◌≤◌, ◌≡◌, refl, Bool, true, false, not, List, [], ◌∷◌, ◌++◌, arith, ltb, if◌then◌else◌,
  ap, ◌∙◌,
}
use os_shell.Common.Int.{ℤ, pos_part, neg_part}
use os_shell.User.Heap.{abs}
use os_shell.User.Heap.Cells.{Block, tag}

-- A block of `n` and a neighbour: what stays of the neighbour's side, and how much is joined.
abbrev pub join_right : ℕ → List Block → ℕ × List Block
join_right n [] = (n, [])
join_right n (b ∷ bs) = if b.free then (n + b.ints, bs) else (n, b ∷ bs)

-- The side before is seen from its last block, or it is empty.
pub data Before : Type 0 where
  nothing : Before
  block : List Block → Block → Before

abbrev pub blocks_of : Before → List Block
blocks_of nothing = []
blocks_of (block bs b) = bs ++ b ∷ []

abbrev pub join_left : Before → ℕ → List Block × ℕ
join_left nothing n = ([], n)
join_left (block bs b) n = if b.free then (bs, n + b.ints) else (bs ++ b ∷ [], n)

-- Every run of blocks can be seen so.
cons_before : (b : Block) (v : Before) → (w : Before) × (b ∷ blocks_of v ≡ blocks_of w)
cons_before b nothing = (block [] b, refl)
cons_before b (block cs c) = (block (b ∷ cs) c, refl)

before : (bs : List Block) → (v : Before) × (bs ≡ blocks_of v)
before [] = (nothing, refl)
before (b ∷ bs) =
    let (v, e) = before bs in let (w, f) = cons_before b v in (w, ap (λ l. b ∷ l) e ∙ f)

pub if_false {ℓ} : {A : Type ℓ} (c : Bool) (x y : A) → c ≡ false → (if c then x else y) ≡ y
if_false c x y e = rw e refl

pub if_true {ℓ} : {A : Type ℓ} (c : Bool) (x y : A) → c ≡ true → (if c then x else y) ≡ x
if_true c x y e = rw e refl

-- The tags of a block, read from either end.
pub tag_free :
    (b : Block) (x : ℤ)
    → 4 ≤ b.ints
    → x ≡ tag b
    → (ltb 0 (pos_part x) ≡ b.free) × (abs x ≡ b.ints) × (ltb 0 (neg_part x) ≡ not b.free)
tag_free b x big e = rw e (by_flag b.free b.ints big)
  where
    by_flag :
        (f : Bool) (n : ℕ)
        → 4 ≤ n
        → let x = tag (record { free = f; ints = n }) in
          (ltb 0 (pos_part x) ≡ f) × (abs x ≡ n) × (ltb 0 (neg_part x) ≡ not f)
    by_flag true n big = (ground arith, ground arith, ground arith)
    by_flag false n big = (ground arith, ground arith, ground arith)

pub join_left-le : (v : Before) (n : ℕ) → n ≤ (join_left v n).1
join_left-le nothing n = omega arith
join_left-le (block bs b) n = ground arith
