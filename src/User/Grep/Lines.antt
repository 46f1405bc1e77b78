-- ===== src/User/Grep/Lines.antt =====
-- `fgets` reads line by line, and grep prints the lines that hold the pattern.
use os_shell.Common.{
  subst, Option-cases, ltb→lt, ltb→le, ℕ, zero, suc, ◌+◌, ◌-◌, ◌<◌, ◌≡◌, refl, ◌⊎◌, inl, inr, true,
  Option, some, List, [], ◌∷◌, ◌++◌, arith, ap, ◌∙◌, length, drop, ltb, Bool-cases, ==_ne,
  length-append,
}
use os_shell.Common.Text.{IsText}
use os_shell.User.Strings.Search.{OccursAt, IsFirst, strstr_lem}
use os_shell.User.Grep.{fgets_loop, fgets, before_nul, print_string, grep_loop, grep}
use os_shell.User.Grep.Fgets.{IsLine, fgets_loop_lem}

-- The lines of an input, each as `fgets` reads it into 1024 bytes.
abbrev pub AreLines : List (List ℕ) → List ℕ → Type 0
AreLines [] input = input ≡ []
AreLines (l ∷ ls) input =
    (rest : List ℕ) × IsLine 1023 input l rest × (0 < length l) × AreLines ls rest

-- What is printed: each line with an occurrence of the pattern, as `printf` writes it.
abbrev pub Printed : (List ℕ → List ℕ) → List ℕ → List (List ℕ) → List ℕ → Type 0
Printed printf p [] out = out ≡ []
Printed printf p (l ∷ ls) out =
    (more : List ℕ) × Printed printf p ls more
    × (((i : ℕ) × OccursAt l p i × (out ≡ printf l ++ more))
        ⊎ (((i : ℕ) → ¬ OccursAt l p i) × (out ≡ more)))

IsText-split : (xs ys : List ℕ) → IsText (xs ++ ys) → IsText xs × IsText ys
IsText-split [] ys h = (tt, h)
IsText-split (x ∷ xs) ys h = let (a, b) = IsText-split xs ys h.1 in ((h.0, a), b)

before_nul_lem : (s r : List ℕ) → IsText s → before_nul (s ++ 0 ∷ r) ≡ s
before_nul_lem [] r h = refl
before_nul_lem (c ∷ s) r h = rw (==_ne c 0 h.0) (ap (λ l. c ∷ l) (before_nul_lem s r h.1))

print_string_lem :
    (printf : List ℕ → List ℕ) (s r : List ℕ)
    → IsText s
    → print_string printf (s ++ 0 ∷ r) ≡ printf s
unfolding print_string
print_string_lem printf s r h = ap printf (before_nul_lem s r h)

abbrev filled : List ℕ → List ℕ → List ℕ
filled line buf = line ++ 0 ∷ drop (length line + 1) buf

length-drop : (n : ℕ) (xs : List ℕ) → length (drop n xs) ≡ length xs - n
length-drop zero xs = omega arith
length-drop (suc n) [] = omega arith
length-drop (suc n) (x ∷ xs) = omega (arith, length-drop n xs)

fgets_lem :
    (buf input : List ℕ)
    → length buf ≡ 1024
    → let (line, rest) = fgets_loop 1023 input in
      (fgets buf 1024 input ≡ some (ltb 0 (length line), filled line buf, rest))
      × (length (filled line buf) ≡ 1024)
unfolding fgets
fgets_lem buf input size =
    let line = (fgets_loop 1023 input).0 in
    let short = (fgets_loop_lem 1023 input).short in
    let ok : ltb (length line) (length buf) ≡ true = ground (arith, short, size) in
    (
      rw ok refl,
      length-append line (0 ∷ drop (length line + 1) buf)
          ∙ omega (arith, short, size, length-drop (length line + 1) buf),
    )

-- What the rounds print, and for which lines.
abbrev Greps : (List ℕ → List ℕ) → List ℕ → List ℕ → Option (Option (List ℕ)) → Type 0
Greps printf p input result =
    (ls : List (List ℕ)) × (out : List ℕ) × AreLines ls input
    × (result ≡ some (some out))
    × Printed printf p ls out

module _ (printf : List ℕ → List ℕ) (p q : List ℕ) (text_p : IsText p) where
  -- A round that reads a line, and what the other rounds do.
  line_and_rest :
      (rounds : ℕ) (buf input : List ℕ)
      → let (line, rest) = fgets_loop 1023 input in
        length buf ≡ 1024
        → IsText line
        → ltb 0 (length line) ≡ true
        → Greps printf p rest (grep_loop printf rounds (p ++ 0 ∷ q) (filled line buf) rest)
        → Greps printf p input (grep_loop printf (suc rounds) (p ++ 0 ∷ q) buf input)
  unfolding grep_loop
  line_and_rest rounds buf input size text some_bytes (ls, out, lines, e, printed) =
      let line = (fgets_loop 1023 input).0 in
      let rest = (fgets_loop 1023 input).1 in
      let behind = drop (length line + 1) buf in
      let taken = (fgets_lem buf input size).0 in
      let (hit, s, first) = strstr_lem line p behind q text text_p in
      let here : AreLines (line ∷ ls) input =
        (rest, fgets_loop_lem 1023 input, ltb→lt 0 (length line) some_bytes, lines) in
      elim (Option-cases hit) [
        | inl miss ↦ (
          line ∷ ls,
          out,
          here,
          rw (taken, some_bytes, s, e, miss, grep_loop) refl,
          (out, printed, inr (subst (IsFirst line p) miss first, refl)),
        )
        | inr (i, found) ↦ (
          line ∷ ls,
          printf line ++ out,
          here,
          rw (taken, some_bytes, s, e, found, grep_loop)
              (ap (λ t. some (some (t ++ out))) (print_string_lem printf line behind text)),
          (out, printed, inl (i, (subst (IsFirst line p) found first).0, refl)),
        )
      ]

  grep_loop_lem :
      (rounds : ℕ) (buf input : List ℕ)
      → length buf ≡ 1024
      → IsText input
      → length input < rounds
      → Greps printf p input (grep_loop printf rounds (p ++ 0 ∷ q) buf input)
  unfolding grep_loop
  grep_loop_lem zero buf input size text enough = absurd (omega arith)
  grep_loop_lem (suc rounds) buf input size text enough =
      let line = (fgets_loop 1023 input).0 in
      let rest = (fgets_loop 1023 input).1 in
      let l = fgets_loop_lem 1023 input in
      let (taken, size') = fgets_lem buf input size in
      let (text_line, text_rest) = IsText-split line rest (subst IsText l.split text) in
      let total : length input ≡ length line + length rest =
        ap length l.split ∙ length-append line rest in
      elim (Bool-cases (ltb 0 (length line))) [
        | inl some_bytes ↦
            let moved : length rest < rounds =
              omega (arith, total, ltb→lt 0 (length line) some_bytes) in
            line_and_rest rounds buf input size text_line some_bytes
              (grep_loop_lem rounds (filled line buf) rest size' text_rest moved)
        | inr no_bytes ↦
            let empty : length line ≡ 0 = omega (arith, ltb→le 0 (length line) no_bytes) in
            let end : input ≡ [] = elim l.moves [
              | inl z ↦ absurd (omega (arith, z, empty))
              | inr (inl z) ↦ absurd (omega (arith, z))
              | inr (inr z) ↦ z
            ] in
            ([], [], end, rw (taken, no_bytes, grep_loop) refl, refl)
      ]

  -- On a text input, with a buffer of 1024 bytes, grep ends within its rounds and never reads or
  -- writes outside of its arrays. It prints, in the order of the input, each line that contains the
  -- pattern, as `printf` writes it, and nothing else. A line is what `fgets` reads: up to a newline
  -- and with it, or 1023 bytes, or up to the end of the input.
  pub grep_lem :
      (buf input : List ℕ)
      → length buf ≡ 1024
      → IsText input
      → (ls : List (List ℕ)) × (out : List ℕ) × AreLines ls input
        × (grep printf (p ++ 0 ∷ q) buf input ≡ some (some out))
        × Printed printf p ls out
  unfolding grep
  grep_lem buf input size text = grep_loop_lem (length input + 1) buf input size text (omega arith)
