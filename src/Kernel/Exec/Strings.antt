-- ===== src/Kernel/Exec/Strings.antt =====
-- The texts of the arguments on the stack.
use os_shell.Common.{
  ℕ, suc, ◌+◌, ◌-◌, ◌^◌, ◌≤◌, ◌<◌, ◌≡◌, ◌⊎◌, inl, inr, refl, some, List, [], ◌∷◌, ◌++◌, arith, ap,
  sym, ◌∙◌, length, take, ltb, false, length-append, map, length-take,
}
use os_shell.Common.Text.{IsText, bytes_at, cstr, store}
use os_shell.Common.Memory.{bytes_at-store_apart, bytes_at-store_self}
use os_shell.Kernel.Exec.{below, padded, push_strings}
use os_shell.Kernel.Libk.{strlen_cstr}

-- An argument: its text, and the bytes behind its NUL, which reach as far as the padded copy.
pub record Argument : Type 0 where
  pub text : List ℕ
  pub rest : List ℕ
  pub is_text : IsText text
  pub room : padded (length text + 1) ≤ length text + 1 + length rest

abbrev pub arg_bytes : Argument → List ℕ
arg_bytes arg = arg.text ++ 0 ∷ arg.rest

abbrev pub arg_size : Argument → ℕ
arg_size arg = padded (length arg.text + 1)

abbrev pub total : List Argument → ℕ
total [] = 0
total (arg ∷ args) = arg_size arg + total args

-- Where the arguments stand that end at `sp`.
abbrev pub places : List Argument → ℕ → List ℕ
places [] sp = []
places (arg ∷ args) sp = (sp - total (arg ∷ args)) ∷ places args sp

-- The texts stand at these addresses, each with its NUL, between `lo` and `hi`.
abbrev pub Hold : (ℕ → ℕ) → ℕ → ℕ → List ℕ → List Argument → Type 0
Hold memory lo hi [] [] = Unit
Hold memory lo hi [] (arg ∷ args) = ⊥
Hold memory lo hi (p ∷ ps) [] = ⊥
Hold memory lo hi (p ∷ ps) (arg ∷ args) =
    (lo ≤ p)
    × (p + (length arg.text + 1) ≤ hi)
    × (bytes_at memory p (length arg.text + 1) ≡ cstr arg.text)
    × Hold memory lo hi ps args

abbrev pub Kept : (ℕ → ℕ) → (ℕ → ℕ) → ℕ → ℕ → Type 0
Kept memory memory' lo hi =
    (a n : ℕ) → (a + n ≤ lo) ⊎ (hi ≤ a) → bytes_at memory' a n ≡ bytes_at memory a n

pub below_lem : (sp n : ℕ) → n ≤ sp → sp < 2 ^ 32 → below sp n ≡ sp - n
below_lem sp n h k = omega arith

-- What lies between the bounds may lie between wider ones, in a memory that is the same there.
pub Hold-Kept :
    (memory memory' : ℕ → ℕ) (lo lo' hi : ℕ) (ps : List ℕ) (args : List Argument)
    → lo' ≤ lo
    → ((a n : ℕ) → lo ≤ a → a + n ≤ hi → bytes_at memory' a n ≡ bytes_at memory a n)
    → Hold memory lo hi ps args
    → Hold memory' lo' hi ps args
Hold-Kept memory memory' lo lo' hi [] [] le same h = tt
Hold-Kept memory memory' lo lo' hi [] (arg ∷ args) le same h = h
Hold-Kept memory memory' lo lo' hi (p ∷ ps) [] le same h = h
Hold-Kept memory memory' lo lo' hi (p ∷ ps) (arg ∷ args) le same (h0, h1, h2, h3) = (
  omega arith,
  h1,
  same p (length arg.text + 1) h0 h1 ∙ h2,
  Hold-Kept memory memory' lo lo' hi ps args le same h3,
)

take-arg :
    (text rest : List ℕ) (k : ℕ)
    → take (length text + 1) (take (length text + 1 + k) (text ++ 0 ∷ rest)) ≡ cstr text
take-arg [] rest k = let e : 0 + 1 + k ≡ suc k = omega arith in rw e refl
take-arg (c ∷ text) rest k =
    let e : suc (length text) + 1 ≡ suc (length text + 1) = omega arith in
    let f : suc (length text + 1) + k ≡ suc (length text + 1 + k) = omega arith in
    rw (e, f) (ap (λ l. c ∷ l) (take-arg text rest k))

pub push_strings_lem :
    (args : List Argument) (sp : ℕ) (memory : ℕ → ℕ)
    → total args ≤ sp
    → sp < 2 ^ 32
    → (memory' : ℕ → ℕ) × (push_strings (map arg_bytes args) sp memory
        ≡ some (places args sp, sp - total args, memory'))
      × Hold memory' (sp - total args) sp (places args sp) args
      × Kept memory memory' (sp - total args) sp
unfolding push_strings
push_strings_lem [] sp memory h k =
    let e : sp - 0 ≡ sp = omega arith in
    (memory, ap (λ l. some ([], l, memory)) (sym e), tt, λ a n r. refl)
push_strings_lem (arg ∷ args) sp memory h k =
    let (memory1, e, held, kept) = push_strings_lem args sp memory (omega arith) k in
    let p = sp - total (arg ∷ args) in
    let size = arg_size arg in
    let got = take size (arg_bytes arg) in
    let room = arg.room in
    let whole : length (arg_bytes arg) ≡ length arg.text + 1 + length arg.rest =
      omega (arith, length-append arg.text (0 ∷ arg.rest)) in
    let len : length got ≡ size = omega (arith, length-take size (arg_bytes arg)) in
    let memory2 = store memory1 p got in
    let at : below (sp - total args) size ≡ p =
      below_lem (sp - total args) size (omega arith) (omega arith) ∙ omega arith in
    let enough : ltb (length (arg_bytes arg)) size ≡ false = ground arith in
    (
      memory2,
      rw e (rw (strlen_cstr arg.text arg.rest arg.is_text) (rw (enough, at))),
      (
        omega arith,
        omega arith,
        bytes_at-store_self memory1 p got (length arg.text + 1) (omega arith)
            ∙ ap (λ n. take (length arg.text + 1) (take n (arg_bytes arg))) (omega arith)
            ∙ take-arg arg.text arg.rest (size - (length arg.text + 1)),
        Hold-Kept memory1 memory2 (sp - total args) p sp (places args sp) args (omega arith)
            (λ a n lo hi. bytes_at-store_apart memory1 p got a n (inr (omega arith))) held,
      ),
      λ a n r. elim r [
        | inl l ↦ bytes_at-store_apart memory1 p got a n (inl l) ∙ kept a n (inl (omega arith))
        | inr l ↦ bytes_at-store_apart memory1 p got a n (inr (omega arith)) ∙ kept a n (inr l)
      ],
    )
