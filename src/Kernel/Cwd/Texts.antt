-- ===== src/Kernel/Cwd/Texts.antt =====
-- Texts in the memory.
use os_shell.Common.{
  ℕ, zero, suc, ◌+◌, ◌-◌, ◌^◌, ◌<◌, ◌≤◌, ◌≡◌, ◌⊎◌, inl, inr, refl, some, List, [], ◌∷◌, ◌++◌, arith,
  ap, ap₂, sym, ◌∙◌, length, length-append, take_all, ==_ne, drop, get_or, append_assoc, leb, ltb,
  ◌&&◌, ◌==◌, Bool-cases, true, false,
}
use mathlib.Core.Path.{fun_ext}
use os_shell.Common.Memory.{bytes_at-append, bytes_at-store_apart, bytes_at-store_self}
use os_shell.Common.Text.{IsText, bytes_at, cstr, store, text_at}
use os_shell.Kernel.Cwd.{memcpy, copy_text, strlen_at}

-- A text stands at an address, its NUL included.
abbrev pub Holds : (ℕ → ℕ) → ℕ → List ℕ → Type 0
Holds memory a text = bytes_at memory a (suc (length text)) ≡ cstr text

text_at-Holds :
    (text : List ℕ) (n a : ℕ) (memory : ℕ → ℕ)
    → IsText text
    → length text < n
    → Holds memory a text
    → text_at n memory a ≡ some (cstr text)
unfolding text_at
text_at-Holds [] zero a memory is h e = absurd (omega arith)
text_at-Holds [] (suc n) a memory is h e =
    let here : memory a ≡ 0 = ap (λ l. get_or l 0 0) e in rw (text_at, here) refl
text_at-Holds (c ∷ text) zero a memory is h e = absurd (omega arith)
text_at-Holds (c ∷ text) (suc n) a memory is h e =
    let here : memory a ≡ c = ap (λ l. get_or l 0 0) e in
    let rest : Holds memory (a + 1) text = ap (drop 1) e in
    rw (text_at, here)
      (rw (==_ne c 0 is.0, text_at-Holds text n (a + 1) memory is.1 (omega arith) rest)
        (ap (λ x. some (x ∷ cstr text)) here))

module _ (text : List ℕ) (is : IsText text) where
  pub strlen_at-Holds :
      (a : ℕ) (memory : ℕ → ℕ)
      → a + length text < 2 ^ 32
      → Holds memory a text
      → strlen_at memory a ≡ some (length text)
  strlen_at-Holds a memory h e =
      rw (text_at-Holds text (2 ^ 32 - a) a memory is (omega arith) e)
        (ap some (omega (arith, length-append text (0 ∷ []))))

-- The bytes of the text alone.
pub Holds-bytes :
    (a : ℕ) (memory : ℕ → ℕ) (text : List ℕ)
    → Holds memory a text
    → bytes_at memory a (length text) ≡ text
Holds-bytes a memory [] e = refl
Holds-bytes a memory (c ∷ text) e =
    ap₂ ◌∷◌ (ap (λ l. get_or l 0 0) e) (Holds-bytes (a + 1) memory text (ap (drop 1) e))

-- Some bytes and a NUL behind them are a text.
pub Holds-join :
    (a : ℕ) (memory : ℕ → ℕ) (xs ys : List ℕ)
    → bytes_at memory a (length xs) ≡ xs
    → Holds memory (a + length xs) ys
    → Holds memory a (xs ++ ys)
Holds-join a memory xs ys e f =
    let size : suc (length (xs ++ ys)) ≡ length xs + suc (length ys) =
      omega (arith, length-append xs ys) in
    ap (bytes_at memory a) size
    ∙ sym (bytes_at-append memory a (length xs) (suc (length ys)))
    ∙ ap₂ ◌++◌ e f
    ∙ sym (append_assoc xs ys (0 ∷ []))

length-bytes_at : (memory : ℕ → ℕ) (a n : ℕ) → length (bytes_at memory a n) ≡ n
length-bytes_at memory a zero = refl
length-bytes_at memory a (suc n) = ap suc (length-bytes_at memory (a + 1) n)

-- Where a copy reads no byte that it has written.
abbrev pub IsForward : ℕ → ℕ → ℕ → Type 0
IsForward to from n = (to ≤ from) ⊎ (from + n ≤ to)

store-cons :
    (memory : ℕ → ℕ) (a x : ℕ) (bs : List ℕ) (i : ℕ)
    → store (store memory a (x ∷ [])) (a + 1) bs i ≡ store memory a (x ∷ bs) i
store-cons memory a x bs i = elim (Bool-cases (ltb i a)) [
  | inl below ↦
      let here : (leb (a + 1) i && ltb i (a + 1 + length bs)) ≡ false = ground arith in
      let first : (leb a i && ltb i (a + 1)) ≡ false = ground arith in
      let both : (leb a i && ltb i (a + suc (length bs))) ≡ false = ground arith in
      rw (here, first, both) refl
  | inr above ↦ elim (Bool-cases (i == a)) [
    | inl at ↦
        let here : (leb (a + 1) i && ltb i (a + 1 + length bs)) ≡ false = ground arith in
        let first : (leb a i && ltb i (a + 1)) ≡ true = ground arith in
        let both : (leb a i && ltb i (a + suc (length bs))) ≡ true = ground arith in
        let index : i - a ≡ 0 = ground arith in rw (here, first, both, index) refl
    | inr beyond ↦
        let first : (leb a i && ltb i (a + 1)) ≡ false = ground arith in
        elim (Bool-cases (ltb i (a + suc (length bs)))) [
          | inl inside ↦
              let here : (leb (a + 1) i && ltb i (a + 1 + length bs)) ≡ true = ground arith in
              let both : (leb a i && ltb i (a + suc (length bs))) ≡ true = ground arith in
              let index : i - a ≡ suc (i - (a + 1)) = ground arith in rw (here, both, index) refl
          | inr outside ↦
              let here : (leb (a + 1) i && ltb i (a + 1 + length bs)) ≡ false = ground arith in
              let both : (leb a i && ltb i (a + suc (length bs))) ≡ false = ground arith in
              rw (here, first, both) refl
        ]
  ]
]

memcpy_at :
    (n to from : ℕ) (memory : ℕ → ℕ)
    → IsForward to from n
    → (i : ℕ) → memcpy to from n memory i ≡ store memory to (bytes_at memory from n) i
unfolding memcpy
memcpy_at zero to from memory apart i =
    let out : (leb to i && ltb i (to + 0)) ≡ false = ground arith in rw out refl
memcpy_at (suc n) to from memory apart i =
    let m1 = store memory to (memory from ∷ []) in
    let next : IsForward (to + 1) (from + 1) n = elim apart [
      | inl l ↦ inl (omega arith)
      | inr r ↦ inr (omega arith)
    ] in
    let same : bytes_at m1 (from + 1) n ≡ bytes_at memory (from + 1) n =
      bytes_at-store_apart memory to (memory from ∷ []) (from + 1) n
        (elim apart [ inl l ↦ inr (omega arith) | inr r ↦ inl (omega arith) ]) in
    memcpy_at n (to + 1) (from + 1) m1 next i
    ∙ ap (λ bs. store m1 (to + 1) bs i) same
    ∙ store-cons memory to (memory from) (bytes_at memory (from + 1) n) i

pub memcpy_lem :
    (n to from : ℕ) (memory : ℕ → ℕ)
    → IsForward to from n
    → memcpy to from n memory ≡ store memory to (bytes_at memory from n)
memcpy_lem n to from memory apart = fun_ext (memcpy_at n to from memory apart)

module _ (to from : ℕ) (text : List ℕ) (memory : ℕ → ℕ)
    (apart : IsForward to from (length text)) where
  copied :
      copy_text to from (length text) memory
      ≡ store (store memory to (bytes_at memory from (length text))) (to + length text) (0 ∷ [])
  copied =
      ap (λ m. store m (to + length text) (0 ∷ [])) (memcpy_lem (length text) to from memory apart)

  pub copy_text-Holds :
      bytes_at memory from (length text) ≡ text
      → Holds (copy_text to from (length text) memory) to text
  copy_text-Holds e =
      let n = length text in
      let m1 : ℕ → ℕ = store memory to (bytes_at memory from n) in
      let size : suc n ≡ n + 1 = omega arith in
      ap (λ m. bytes_at m to (suc n)) copied
      ∙ ap (bytes_at (store m1 (to + n) (0 ∷ [])) to) size
      ∙ sym (bytes_at-append (store m1 (to + n) (0 ∷ [])) to n 1)
      ∙ ap₂ ◌++◌
          (bytes_at-store_apart m1 (to + n) (0 ∷ []) to n (inl (omega arith))
            ∙ rw e (
                bytes_at-store_self memory to text n (omega arith) ∙ take_all n text (omega arith)))
          (bytes_at-store_self m1 (to + n) (0 ∷ []) 1 (omega arith))

  pub copy_text-bytes :
      (a k : ℕ)
      → (a + k ≤ to) ⊎ (to + suc (length text) ≤ a)
      → bytes_at (copy_text to from (length text) memory) a k ≡ bytes_at memory a k
  copy_text-bytes a k far =
      let n = length text in
      let len = length-bytes_at memory from n in
      ap (λ m. bytes_at m a k) copied ∙ elim far [
        | inl l ↦
            bytes_at-store_apart (store memory to (bytes_at memory from n)) (to + n) (0 ∷ []) a k
              (inl (omega arith))
            ∙ bytes_at-store_apart memory to (bytes_at memory from n) a k (inl l)
        | inr r ↦
            bytes_at-store_apart (store memory to (bytes_at memory from n)) (to + n) (0 ∷ []) a k
              (inr (omega arith))
            ∙ bytes_at-store_apart memory to (bytes_at memory from n) a k (inr (omega arith))
      ]
