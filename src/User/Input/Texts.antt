-- ===== src/User/Input/Texts.antt =====
-- What the line editors make of their keys, and what a buffer shows.
use os_shell.Common.{
  ℕ, zero, suc, ◌+◌, ◌-◌, ◌%◌, ◌^◌, ◌<◌, ◌≤◌, ◌≡◌, refl, List, [], ◌∷◌, ◌++◌, length, set, take,
  ltb, ◌==◌, if◌then◌else◌, arith, ap,
}
use os_shell.User.Input.{backspace, tab, Editor, int_suc, int_pred, int_less}

-- One key on a text of at most `most` bytes: a backspace takes the last byte away, a tab does
-- nothing, and any other key is appended as long as there is room.
unfoldable pub edit : ℕ → List ℕ → ℕ → List ℕ
edit most text c =
    if c == backspace
    then take (length text - 1) text
    else if c == tab
    then text
    else if ltb (length text) most
    then text ++ c ∷ []
    else text

unfoldable pub edits : ℕ → List ℕ → List ℕ → List ℕ
edits most text [] = text
edits most text (c ∷ cs) = edits most (edit most text c) cs

-- The first `buffer_index` bytes of the buffer are the text.
pub record Shows (buf_size : ℕ) (text : List ℕ) (e : Editor) : Type 0 where
  pub size : length e.buf ≡ buf_size
  pub small : buf_size < 2 ^ 31
  pub index : e.buffer_index ≡ length text
  pub room : length text < buf_size
  pub prefix : take e.buffer_index e.buf ≡ text

pub take-set : (i c : ℕ) (buf : List ℕ) → take i (set buf i c) ≡ take i buf
take-set i c [] = refl
take-set zero c (x ∷ buf) = refl
take-set (suc i) c (x ∷ buf) = ap (λ l. x ∷ l) (take-set i c buf)

pub take-set_behind :
    (i c : ℕ) (buf : List ℕ) → i < length buf → take (suc i) (set buf i c) ≡ take i buf ++ c ∷ []
take-set_behind i c [] h = absurd (omega arith)
take-set_behind zero c (x ∷ buf) h = refl
take-set_behind (suc i) c (x ∷ buf) h = ap (λ l. x ∷ l) (take-set_behind i c buf (omega arith))

pub take-take : (i j : ℕ) (buf : List ℕ) → i ≤ j → take i (take j buf) ≡ take i buf
take-take zero j buf h = refl
take-take (suc i) zero buf h = absurd (omega arith)
take-take (suc i) (suc j) [] h = refl
take-take (suc i) (suc j) (x ∷ buf) h = ap (λ l. x ∷ l) (take-take i j buf (omega arith))

pub take-length-le : (i : ℕ) (text : List ℕ) → i ≤ length text → length (take i text) ≡ i
take-length-le zero text h = refl
take-length-le (suc i) [] h = absurd (omega arith)
take-length-le (suc i) (x ∷ text) h = ap suc (take-length-le i text (omega arith))

pub none_to_erase : (text : List ℕ) → length text ≡ 0 → take (length text - 1) text ≡ text
none_to_erase [] h = refl
none_to_erase (x ∷ text) h = absurd (omega arith)

-- The three changes of an editor.
abbrev pub type_in : ℕ → List ℕ → Editor → Editor
type_in c out e = record {
  buf = set e.buf e.buffer_index c;
  buffer_index = int_suc e.buffer_index;
  printed = out;
}

abbrev pub erase : List ℕ → Editor → Editor
erase out e = record e { buffer_index = int_pred e.buffer_index; printed = out }

abbrev pub mark : List ℕ → Editor → Editor
mark out e = record e { buf = set e.buf e.buffer_index 0; printed = out }

-- The test of the loop, on numbers that are no negative ints.
pub int_less_lem : (i n : ℕ) → i < n → n < 2 ^ 31 → int_less i (int_pred n) ≡ ltb i (n - 1)
unfolding int_less
int_less_lem i n h small =
    let e : (i + 2 ^ 31) % 2 ^ 32 ≡ i + 2 ^ 31 = omega arith in
    let f : ((n + 2 ^ 32 - 1) % 2 ^ 32 + 2 ^ 31) % 2 ^ 32 ≡ n - 1 + 2 ^ 31 = omega arith in
    rw (e, f) (ground arith)
