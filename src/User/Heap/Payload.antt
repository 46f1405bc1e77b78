-- ===== src/User/Heap/Payload.antt =====
-- What the taken blocks of a run hold between their tags.
use os_shell.Common.{
  ℕ, zero, suc, ◌+◌, ◌-◌, ◌<◌, ◌≤◌, ◌≡◌, refl, Bool, true, false, List, [], ◌∷◌, ◌++◌, arith, ap,
  ap₂, ◌∙◌,
}
use os_shell.Common.Int.{ℤ}
use os_shell.User.Heap.{Array}
use os_shell.User.Heap.Cells.{Block, ends, is_tag, tag_behind}

-- `k` cells from index `i` on, and those between the tags of each taken block.
abbrev pub row : Array → ℕ → ℕ → List ℤ
row a i zero = []
row a i (suc k) = a i ∷ row a (i + 1) k

abbrev pub add_row : Bool → List ℤ → List (List ℤ) → List (List ℤ)
add_row true r rows = rows
add_row false r rows = r ∷ rows

abbrev pub payloads : Array → ℕ → List Block → List (List ℤ)
payloads a i [] = []
payloads a i (b ∷ bs) = add_row b.free (row a (i + 1) (b.ints - 2)) (payloads a (i + b.ints) bs)

row-same :
    (a a' : Array) (i k : ℕ) → ((c : ℕ) → i ≤ c → c < i + k → a' c ≡ a c) → row a' i k ≡ row a i k
row-same a a' i zero same = refl
row-same a a' i (suc k) same =
    ap₂ ◌∷◌ (same i (omega arith) (omega arith))
      (row-same a a' (i + 1) k (λ c lo hi. same c (omega arith) (omega arith)))

add_row-same :
    (f : Bool) (r r' : List ℤ) (rows rows' : List (List ℤ))
    → (f ≡ false → r' ≡ r)
    → rows' ≡ rows
    → add_row f r' rows' ≡ add_row f r rows
add_row-same true r r' rows rows' h e = e
add_row-same false r r' rows rows' h e = ap₂ ◌∷◌ (h refl) e

-- A cell of a taken block.
tag_inside :
    (c i : ℕ) (b : Block) (bs : List Block)
    → b.free ≡ false
    → i < c
    → c < i + b.ints
    → is_tag c i (b ∷ bs) ≡ true
tag_inside c i b bs f lo hi = ground arith

pub payloads-same :
    (a a' : Array) (i : ℕ) (bs : List Block)
    → ((c : ℕ) → is_tag c i bs ≡ true → a' c ≡ a c)
    → payloads a' i bs ≡ payloads a i bs
payloads-same a a' i [] same = refl
payloads-same a a' i (b ∷ bs) same =
    add_row-same b.free (row a (i + 1) (b.ints - 2)) (row a' (i + 1) (b.ints - 2))
      (payloads a (i + b.ints) bs) (payloads a' (i + b.ints) bs)
      (λ f.
        row-same a a' (i + 1) (b.ints - 2)
          (λ c lo hi. same c (tag_inside c i b bs f (omega arith) (omega arith))))
      (payloads-same a a' (i + b.ints) bs (λ c m. same c (tag_behind c i b bs m)))

add_row-append :
    (f : Bool) (r : List ℤ) (rows more : List (List ℤ))
    → add_row f r (rows ++ more) ≡ add_row f r rows ++ more
add_row-append true r rows more = refl
add_row-append false r rows more = refl

pub payloads-append :
    (a : Array) (i : ℕ) (xs ys : List Block)
    → payloads a i (xs ++ ys) ≡ payloads a i xs ++ payloads a (ends i xs) ys
payloads-append a i [] ys = refl
payloads-append a i (x ∷ xs) ys =
    ap (add_row x.free (row a (i + 1) (x.ints - 2))) (payloads-append a (i + x.ints) xs ys)
    ∙ add_row-append x.free (row a (i + 1) (x.ints - 2)) (payloads a (i + x.ints) xs) _
