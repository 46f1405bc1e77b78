-- ===== src/Kernel/Exec/Stack.antt =====
-- The stack that a program begins with.
use os_shell.Common.{
  ℕ, suc, ◌+◌, ◌-◌, ◌*◌, ◌^◌, ◌≤◌, ◌<◌, ◌≡◌, inl, inr, refl, some, List, [], ◌∷◌, ◌++◌, arith, ap,
  ap₂, subst, sym, ◌∙◌, length, length-append, map,
}
use os_shell.Common.Text.{bytes32, bytes_at, store}
use os_shell.Common.Memory.{bytes_at-append, bytes_at-store_apart, bytes_at-store_self}
use os_shell.Kernel.Exec.{below, push_strings, push_words, build_stack, stack_top}
use os_shell.Kernel.Node.{wrap}
use os_shell.Kernel.Exec.Strings.{
  Argument, arg_bytes, total, places, Hold, Kept, below_lem, Hold-Kept, push_strings_lem,
}

abbrev pub word_bytes : List ℕ → List ℕ
word_bytes [] = []
word_bytes (w ∷ words) = bytes32 w ++ word_bytes words

push_words-snoc :
    (words : List ℕ) (w sp : ℕ) (memory : ℕ → ℕ)
    → push_words (words ++ w ∷ []) sp memory
      ≡ push_words words (below sp 4) (store memory (below sp 4) (bytes32 w))
unfolding push_words
push_words-snoc [] w sp memory = refl
push_words-snoc (v ∷ words) w sp memory =
    ap (λ r. (below r.0 4, store r.1 (below r.0 4) (bytes32 v))) (push_words-snoc words w sp memory)

push_words_lem :
    (words : List ℕ) (sp : ℕ) (memory : ℕ → ℕ)
    → 4 * length words ≤ sp
    → sp < 2 ^ 32
    → (memory' : ℕ → ℕ) × (push_words words sp memory ≡ (sp - 4 * length words, memory'))
      × (bytes_at memory' (sp - 4 * length words) (4 * length words) ≡ word_bytes words)
      × Kept memory memory' (sp - 4 * length words) sp
unfolding push_words
push_words_lem [] sp memory h k =
    let e : sp - 4 * 0 ≡ sp = omega arith in
    (memory, ap (λ l. (l, memory)) (sym e), refl, λ a n r. refl)
push_words_lem (w ∷ words) sp memory h k =
    let (memory1, e, there, kept) = push_words_lem words sp memory (omega arith) k in
    let n = length words in
    let p = sp - 4 * suc n in
    let memory2 = store memory1 p (bytes32 w) in
    let at : below (sp - 4 * n) 4 ≡ p =
      below_lem (sp - 4 * n) 4 (omega arith) (omega arith) ∙ omega arith in
    let next : p + 4 ≡ sp - 4 * n = omega arith in
    let size : 4 * suc n ≡ 4 + 4 * n = omega arith in
    (
      memory2,
      rw e (rw at refl),
      ap (bytes_at memory2 p) size
          ∙ sym (bytes_at-append memory2 p 4 (4 * n))
          ∙ ap₂ ◌++◌ (bytes_at-store_self memory1 p (bytes32 w) 4 (omega arith)) (
              bytes_at-store_apart memory1 p (bytes32 w) (p + 4) (4 * n) (inr (omega arith))
              ∙ ap (λ a. bytes_at memory1 a (4 * n)) next
              ∙ there),
      λ a m r. elim r [
        | inl l ↦
            bytes_at-store_apart memory1 p (bytes32 w) a m (inl l) ∙ kept a m (inl (omega arith))
        | inr l ↦
            bytes_at-store_apart memory1 p (bytes32 w) a m (inr (omega arith)) ∙ kept a m (inr l)
      ],
    )

-- What the stack takes.
abbrev pub stack_size : List Argument → ℕ
stack_size args = total args + 4 * (length args + 3)

-- The words of a stack that begins at `sp`.
abbrev pub frame : List Argument → ℕ → List ℕ
frame args sp = length args ∷ (sp + 8) ∷ places args stack_top ++ 0 ∷ []

-- From `sp` to the top: the words, and the texts that they point to.
abbrev pub Built : List Argument → ℕ → (ℕ → ℕ) → Type 0
Built args sp memory =
    (bytes_at memory sp (4 * (length args + 3)) ≡ word_bytes (frame args sp))
    × Hold memory (sp + 4 * (length args + 3)) stack_top (places args stack_top) args

length-places : (args : List Argument) (sp : ℕ) → length (places args sp) ≡ length args
length-places [] sp = refl
length-places (arg ∷ args) sp = ap suc (length-places args sp)

pub length-map {ℓ κ} :
    {A : Type ℓ} {B : Type κ} (f : A → B) (xs : List A) → length (map f xs) ≡ length xs
length-map f [] = refl
length-map f (x ∷ xs) = ap suc (length-map f xs)

build_stack-push_words :
    (args : List Argument) (sp0 : ℕ) (memory memory0 : ℕ → ℕ)
    → push_strings (map arg_bytes args) stack_top memory
      ≡ some (places args stack_top, sp0, memory0)
    → 4 * (length args + 3) ≤ sp0
    → sp0 ≤ stack_top
    → build_stack (map arg_bytes args) memory
      ≡ some (push_words (frame args (sp0 - 4 * (length args + 3))) sp0 memory0)
unfolding build_stack push_words
build_stack-push_words args sp0 memory memory0 e h k =
    let ps = places args stack_top in
    let len : length (ps ++ 0 ∷ []) ≡ length args + 1 =
      omega (arith, length-append ps (0 ∷ []), length-places args stack_top) in
    let (memory1, e1, there, kept) =
      push_words_lem (ps ++ 0 ∷ []) sp0 memory0 (omega arith) (omega arith) in
    let q = below (sp0 - 4 * length (ps ++ 0 ∷ [])) 4 in
    let w : wrap (q + 4) ≡ sp0 - 4 * (length args + 3) + 8 = omega arith in
    rw e (
      rw (← push_words-snoc ps 0 sp0 memory0) (
        rw e1 (
          ap₂ (λ v n. some (below q 4, store (store memory1 q (bytes32 v)) (below q 4) (bytes32 n)))
            w (length-map arg_bytes args))))

-- The arguments fit. Then the stack is as it is to be, and what lies below it and above it remains.
pub build_stack_lem :
    (args : List Argument) (memory : ℕ → ℕ)
    → stack_size args ≤ stack_top
    → (memory' : ℕ → ℕ) × (build_stack (map arg_bytes args) memory
        ≡ some (stack_top - stack_size args, memory'))
      × Built args (stack_top - stack_size args) memory'
      × Kept memory memory' (stack_top - stack_size args) stack_top
build_stack_lem args memory h =
    let n = length args in
    let sp0 = stack_top - total args in
    let sp = sp0 - 4 * (n + 3) in
    let len : length (frame args sp) ≡ n + 3 =
      omega (arith, length-append (places args stack_top) (0 ∷ []), length-places args stack_top) in
    let (memory0, e0, held, kept0) =
      push_strings_lem args stack_top memory (omega arith) (omega arith) in
    let (memory1, e1, there, kept1) =
      push_words_lem (frame args sp) sp0 memory0 (omega arith) (omega arith) in
    let at : sp ≡ stack_top - stack_size args = omega arith in
    let top : sp + 4 * (n + 3) ≡ sp0 = omega arith in
    let there' : bytes_at memory1 sp (4 * (n + 3)) ≡ word_bytes (frame args sp) =
      subst (λ l. bytes_at memory1 (sp0 - 4 * l) (4 * l) ≡ word_bytes (frame args sp)) len there in
    let kept1' : Kept memory0 memory1 sp sp0 =
      subst (λ l. Kept memory0 memory1 (sp0 - 4 * l) sp0) len kept1 in
    subst
      (λ p.
        (memory' : ℕ → ℕ) × (build_stack (map arg_bytes args) memory ≡ some (p, memory'))
        × Built args p memory'
        × Kept memory memory' p stack_top)
      at
      (
        memory1,
        build_stack-push_words args sp0 memory memory0 e0 (omega arith) (omega arith)
            ∙ ap some e1
            ∙ ap (λ l. some (sp0 - 4 * l, memory1)) len,
        (
          there',
          Hold-Kept memory0 memory1 sp0 (sp + 4 * (n + 3)) stack_top (places args stack_top) args
              (omega arith) (λ a k lo hi. kept1' a k (inr lo)) held,
        ),
        λ a k r. elim r [
          | inl l ↦ kept1' a k (inl l) ∙ kept0 a k (inl (omega arith))
          | inr l ↦ kept1' a k (inr (omega arith)) ∙ kept0 a k (inr l)
        ],
      )
