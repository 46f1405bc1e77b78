-- ===== src/Kernel/Ext2/Parts.antt =====
-- The parts of a path, and the walk along them.
use os_shell.Common.{
  ◌⊎◌, append-nil, ℕ, suc, ◌+◌, ◌≤◌, ◌≡◌, refl, Option, none, some, List, [], ◌∷◌, ◌++◌, arith, ap,
  sym, ◌∙◌, length, ◌>>=◌, ◌>>◌, assert, if◌then◌else◌, true, false, ltb, leb, ◌==◌, ==_ne, ltb→lt,
  Bool-cases, inl, inr, Option-cases, append_assoc,
}
use os_shell.Common.Text.{IsText}
use os_shell.Kernel.Node.{Node}
use os_shell.Kernel.Ext2.{Ext2, skip_slashes, copy_part, find_part}

-- The parts of a path, the pieces between its slashes that are not empty. `part` is the piece that
-- has been begun.
abbrev pub begun : List ℕ → List (List ℕ) → List (List ℕ)
begun [] parts = parts
begun (c ∷ part) parts = (c ∷ part) ∷ parts

-- The first piece, up to a slash, and what stands behind it.
abbrev pub piece : List ℕ → List ℕ
piece [] = []
piece (c ∷ path) = if c == b'/' then [] else c ∷ piece path

abbrev pub behind : List ℕ → List ℕ
behind [] = []
behind (c ∷ path) = if c == b'/' then c ∷ path else behind path

unfoldable pub split_from : List ℕ → List ℕ → List (List ℕ)
split_from part [] = begun part []
split_from part (c ∷ path) = elim (c == b'/') [
  | true ↦ begun part (split_from [] path)
  | false ↦ split_from (part ++ c ∷ []) path
]

unfoldable pub parts_of : List ℕ → List (List ℕ)
unfolding split_from
parts_of path = split_from [] path

begun-append : (part : List ℕ) (xs ys : List (List ℕ)) → begun part xs ++ ys ≡ begun part (xs ++ ys)
begun-append [] xs ys = refl
begun-append (c ∷ part) xs ys = refl

module _ (fs : Ext2) where
  -- One part after the other; a part of more than 256 bytes is a failed assertion.
  unfoldable pub walk : Option Node → List (List ℕ) → Option (Option Node)
  walk none parts = some none
  walk (some node) [] = some (some node)
  walk (some node) (part ∷ parts) = do
    assert (leb (length part) 256)
    next ← find_part fs node part
    walk next parts

  pub walk-none : (parts : List (List ℕ)) → walk none parts ≡ some none
  unfolding walk
  walk-none [] = refl
  walk-none (part ∷ parts) = refl

  pub walk-append :
      (current : Option Node) (xs ys : List (List ℕ))
      → walk current (xs ++ ys) ≡ (walk current xs >>= λ next. walk next ys)
  unfolding walk
  walk-append none [] ys = refl
  walk-append none (x ∷ xs) ys = refl
  walk-append (some node) [] ys = refl
  walk-append (some node) (x ∷ xs) ys = elim (Bool-cases (leb (length x) 256)) [
    | inr long ↦ rw (long, walk)
    | inl short ↦ elim (Option-cases (find_part fs node x)) [
      | inl fault ↦ rw (short, walk) (rw fault)
      | inr (next, found) ↦ rw (short, walk) (rw found (walk-append next xs ys))
    ]
  ]

-- The path without the slashes at its front.
abbrev pub trim : List ℕ → List ℕ
trim [] = []
trim (c ∷ path) = if c == b'/' then trim path else c ∷ path

pub skip_slashes-trim :
    (path rest : List ℕ) → skip_slashes (path ++ 0 ∷ rest) ≡ some (trim path ++ 0 ∷ rest)
unfolding skip_slashes
skip_slashes-trim [] rest = refl
skip_slashes-trim (c ∷ path) rest = elim (Bool-cases (c == b'/')) [
  | inl e ↦ rw e (skip_slashes-trim path rest)
  | inr e ↦ rw e
]

pub parts_of-trim : (path : List ℕ) → split_from [] path ≡ split_from [] (trim path)
unfolding split_from
parts_of-trim [] = refl
parts_of-trim (c ∷ path) = elim (Bool-cases (c == b'/')) [
  | inl e ↦ rw (e, split_from) (parts_of-trim path)
  | inr e ↦ rw e
]

pub IsText-trim : (path : List ℕ) → IsText path → IsText (trim path)
IsText-trim [] h = h
IsText-trim (c ∷ path) h = elim (Bool-cases (c == b'/')) [
  | inl e ↦ rw e (IsText-trim path h.1)
  | inr e ↦ rw e h
]

pub IsText-behind : (path : List ℕ) → IsText path → IsText (behind path)
IsText-behind [] h = h
IsText-behind (c ∷ path) h = elim (Bool-cases (c == b'/')) [
  | inl e ↦ rw e h
  | inr e ↦ rw e (IsText-behind path h.1)
]

pub length-trim : (path : List ℕ) → length (trim path) ≤ length path
length-trim [] = omega arith
length-trim (c ∷ path) = elim (Bool-cases (c == b'/')) [
  | inl e ↦ rw e (omega (arith, length-trim path))
  | inr e ↦ rw e (omega arith)
]

pub length-behind : (path : List ℕ) → length (behind path) ≤ length path
length-behind [] = omega arith
length-behind (c ∷ path) = elim (Bool-cases (c == b'/')) [
  | inl e ↦ rw e (omega arith)
  | inr e ↦ rw e (omega (arith, length-behind path))
]

-- What is trimmed begins with no slash.
pub trim-cases :
    (path : List ℕ)
    → (trim path ≡ [])
      ⊎ ((c : ℕ) × (rest : List ℕ) × (trim path ≡ c ∷ rest) × ((c == b'/') ≡ false))
trim-cases [] = inl refl
trim-cases (c ∷ path) = elim (Bool-cases (c == b'/')) [
  | inl e ↦ rw e (trim-cases path)
  | inr e ↦ rw e (inr (c, path, refl, e))
]

pub split_from-piece :
    (part path : List ℕ)
    → split_from part path ≡ begun (part ++ piece path) (split_from [] (behind path))
unfolding split_from
split_from-piece part [] = rw append-nil
split_from-piece part (c ∷ path) = elim (Bool-cases (c == b'/')) [
  | inl e ↦ rw (e, append-nil) (rw (e, split_from))
  | inr e ↦
      rw (e, split_from)
        (split_from-piece (part ++ c ∷ []) path
          ∙ ap (λ l. begun l (split_from [] (behind path)))
              (append_assoc part (c ∷ []) (piece path)))
]

pub copy_part-piece :
    (i : ℕ) (path rest : List ℕ)
    → IsText path
    → i ≤ 256
    → copy_part i (path ++ 0 ∷ rest) ≡ (
        if leb (i + length (piece path)) 256
        then some (piece path, behind path ++ 0 ∷ rest)
        else none)
unfolding copy_part
copy_part-piece i [] rest text h = let e : leb (i + 0) 256 ≡ true = ground arith in rw e
copy_part-piece i (c ∷ path) rest text h =
    let nz : (c == 0) ≡ false = ==_ne c 0 text.0 in
    elim (Bool-cases (c == b'/')) [
      | inl e ↦ let small : leb (i + 0) 256 ≡ true = ground arith in rw (e, nz) (rw small)
      | inr e ↦ elim (Bool-cases (ltb i 256)) [
        | inl more ↦
            let next : i + suc (length (piece path)) ≡ i + 1 + length (piece path) = omega arith in
            let ih = copy_part-piece (i + 1) path rest text.1 (omega (arith, ltb→lt _ _ more)) in
            rw (e, nz)
              (rw (more, next)
                (rw ih (elim (Bool-cases (leb (i + 1 + length (piece path)) 256)) [
                  | inl short ↦ rw short
                  | inr long ↦ rw long
                ])))
        | inr full ↦
            let long : leb (i + suc (length (piece path))) 256 ≡ false = ground arith in
            rw (e, nz) (rw (full, long))
      ]
    ]

-- The parts of a path that is written in two halves.
pub parts_of-slash :
    (part xs ys : List ℕ) → split_from part (xs ++ b'/' ∷ ys) ≡ split_from part xs ++ parts_of ys
unfolding parts_of
parts_of-slash [] [] ys = refl
parts_of-slash (c ∷ part) [] ys = refl
parts_of-slash part (c ∷ xs) ys = elim (Bool-cases (c == b'/')) [
  | inl e ↦
      rw (e, split_from)
        (ap (begun part) (parts_of-slash [] xs ys)
          ∙ sym (begun-append part (split_from [] xs) (split_from [] ys)))
  | inr e ↦ rw (e, split_from) (parts_of-slash (part ++ c ∷ []) xs ys)
]
