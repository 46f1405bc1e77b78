-- ===== src/User/Input.antt =====
-- The line editors of nikshita.dir/sbin/input_functions.c, `read_input_echo` and `read_input_silent`.
-- The keys are the bytes that `read(0, &c, 1)` delivers one by one. What `handle_tab` prints is a
-- parameter; it leaves the buffer as it is. An `int` is its pattern of 32 bits.
pub mod Texts
pub mod Edits
use os_shell.Common.{
  ℕ, ◌+◌, ◌-◌, ◌%◌, ◌^◌, Bool, List, [], ◌∷◌, ◌++◌, Option, none, some, length, set, ltb, ◌==◌,
  if◌then◌else◌,
}

abbrev pub enter : ℕ
enter = 13

abbrev pub backspace : ℕ
backspace = 127

abbrev pub tab : ℕ
tab = 9

-- `i + 1`, `i - 1` and `i < j`
abbrev pub int_suc : ℕ → ℕ
int_suc i = (i + 1) % 2 ^ 32

abbrev pub int_pred : ℕ → ℕ
int_pred i = (i + 2 ^ 32 - 1) % 2 ^ 32

unfoldable pub int_less : ℕ → ℕ → Bool
int_less i j = ltb ((i + 2 ^ 31) % 2 ^ 32) ((j + 2 ^ 31) % 2 ^ 32)

pub record Editor : Type 0 where
  pub buf : List ℕ
  pub buffer_index : ℕ
  pub printed : List ℕ

-- The loop is still reading, it has returned, or it has written outside of the buffer.
pub data Outcome : Type 0 where
  reading returned : Editor → Outcome
  fault : Outcome

-- `buf[buffer_index] = c`, where a negative index is outside of the buffer.
abbrev put : ℕ → Editor → Option Editor
put c e =
    if ltb e.buffer_index (length e.buf)
    then some (record e { buf = set e.buf e.buffer_index c })
    else none

abbrev say : List ℕ → Editor → Editor
say text e = record e { printed = e.printed ++ text }

-- "\b \b"
abbrev pub rubout : List ℕ
rubout = 8 ∷ b' ' ∷ 8 ∷ []

module _ (handle_tab : List ℕ → ℕ → List ℕ) (buf_size : ℕ) where
  pub echo_step : ℕ → Editor → Outcome
  echo_step c e =
      if c == enter
      then elim (put 0 e) [ none ↦ fault | some e' ↦ returned e' ]
      else if c == backspace
      then if e.buffer_index == 0
        then reading e
        else reading (say rubout (record e { buffer_index = int_pred e.buffer_index }))
      else if c == tab
      then elim (put 0 e) [
        | none ↦ fault
        | some e' ↦ reading (say (handle_tab e'.buf e'.buffer_index) e')
      ]
      else if int_less e.buffer_index (int_pred buf_size)
      then elim (put c e) [
        | none ↦ fault
        | some e' ↦ reading (say (c ∷ []) (record e' { buffer_index = int_suc e'.buffer_index }))
      ]
      else reading e

  -- What the silent editor prints at a tab ends with the index, in decimal: `number` prints it.
  pub silent_step : (number : ℕ → List ℕ) → ℕ → Editor → Outcome
  silent_step number c e =
      if c == enter
      then elim (put 0 e) [ none ↦ fault | some e' ↦ returned e' ]
      else if c == backspace
      then if e.buffer_index == 0
        then reading e
        else reading (record e { buffer_index = int_pred e.buffer_index })
      else if c == tab
      then reading (say (handle_tab e.buf e.buffer_index ++ number e.buffer_index) e)
      else if int_less e.buffer_index (int_pred buf_size)
      then elim (put c e) [
        | none ↦ fault
        | some e' ↦ reading (record e' { buffer_index = int_suc e'.buffer_index })
      ]
      else reading e

-- The loop, until it returns or the keys run out.
unfoldable pub run : (ℕ → Editor → Outcome) → List ℕ → Editor → Outcome
run step [] e = reading e
run step (c ∷ cs) e = elim (step c e) [
  | fault ↦ fault
  | returned e' ↦ returned e'
  | reading e' ↦ run step cs e'
]

abbrev pub fresh : List ℕ → Editor
fresh buf = record { buf = buf; buffer_index = 0; printed = [] }

pub read_input_echo : (List ℕ → ℕ → List ℕ) → ℕ → List ℕ → List ℕ → Outcome
read_input_echo handle_tab buf_size buf keys = run (echo_step handle_tab buf_size) keys (fresh buf)

pub read_input_silent : (List ℕ → ℕ → List ℕ) → (ℕ → List ℕ) → ℕ → List ℕ → List ℕ → Outcome
read_input_silent handle_tab number buf_size buf keys =
    run (silent_step handle_tab buf_size number) keys (fresh buf)
