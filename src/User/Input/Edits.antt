-- ===== src/User/Input/Edits.antt =====
-- Both editors leave the text that the keys spell.
use os_shell.Common.{
  ℕ, suc, ◌-◌, ◌^◌, ◌<◌, ◌≡◌, refl, ◌≢◌, List, [], ◌∷◌, ◌++◌, true, false, length, set, take, ltb,
  ◌==◌, arith, All, ap, length-set, length-append, ==_ne, ==_iff, ltb→lt, Bool-cases, inl, inr, ◌∙◌,
  sym,
}
use os_shell.User.Input.{
  int_suc, int_pred, int_less, rubout, enter, backspace, tab, Editor, Outcome, reading, returned,
  echo_step, silent_step, run, fresh, read_input_echo, read_input_silent,
}
use os_shell.User.Input.Texts.{
  edit, edits, Shows, take-set, take-set_behind, take-take, take-length-le, none_to_erase, type_in,
  erase, mark, int_less_lem,
}

module _ (buf_size : ℕ) (text : List ℕ) (e : Editor) (s : Shows buf_size text e) where
  typed :
      (c : ℕ) (out : List ℕ)
      → length text < buf_size - 1
      → Shows buf_size (text ++ c ∷ []) (type_in c out e)
  typed c out h =
      let one : int_suc e.buffer_index ≡ suc e.buffer_index =
        omega (arith, s.index, s.room, s.small) in
      record {
        size = length-set e.buf e.buffer_index c ∙ s.size;
        small = s.small;
        index = one ∙ omega (arith, s.index, length-append text (c ∷ []));
        room = omega (arith, length-append text (c ∷ []));
        prefix = rw one (
            take-set_behind e.buffer_index c e.buf (omega (arith, s.index, s.size))
            ∙ ap (λ l. l ++ c ∷ []) s.prefix);
      }

  erased :
      (out : List ℕ)
      → (e.buffer_index == 0) ≡ false
      → Shows buf_size (take (length text - 1) text) (erase out e)
  erased out some_left =
      let ne : e.buffer_index ≢ 0 = λ z. ground arith in
      let less : int_pred e.buffer_index ≡ e.buffer_index - 1 =
        omega (arith, s.index, s.room, s.small, ne) in
      let short = take-length-le (length text - 1) text (omega arith) in
      record {
        size = s.size;
        small = s.small;
        index = less ∙ omega (arith, s.index, short);
        room = omega (arith, s.room, short);
        prefix =
            ap (λ i. take i e.buf) less
            ∙ ap (λ i. take (i - 1) e.buf) s.index
            ∙ sym (take-take (length text - 1) e.buffer_index e.buf (omega (arith, s.index)))
            ∙ ap (take (length text - 1)) s.prefix;
      }

  marked : (out : List ℕ) → Shows buf_size text (mark out e)
  marked out = record {
    size = length-set e.buf e.buffer_index 0 ∙ s.size;
    small = s.small;
    index = s.index;
    room = s.room;
    prefix = take-set e.buffer_index 0 e.buf ∙ s.prefix;
  }

  inside : ltb e.buffer_index (length e.buf) ≡ true
  inside = ground (arith, s.index, s.size, s.room)

-- Goes on with a text, in a state that shows it.
abbrev GoesOn : ℕ → List ℕ → Outcome → Type 0
GoesOn buf_size text o = (e : Editor) × (o ≡ reading e) × Shows buf_size text e

-- Has returned with a text, and the NUL behind it.
abbrev pub Returns : ℕ → List ℕ → Outcome → Type 0
Returns buf_size text o =
    (e : Editor) × (o ≡ returned e)
    × (e.buffer_index ≡ length text)
    × (length e.buf ≡ buf_size)
    × (take (suc (length text)) e.buf ≡ text ++ 0 ∷ [])

module _ (handle_tab : List ℕ → ℕ → List ℕ) (number : ℕ → List ℕ) (buf_size : ℕ) where
  module _ (text : List ℕ) (e : Editor) (s : Shows buf_size text e) where
    inside' : ltb (length text) (length e.buf) ≡ true
    inside' = rw s.index at (inside buf_size text e s)

    compared : int_less (length text) (int_pred buf_size) ≡ ltb (length text) (buf_size - 1)
    compared = int_less_lem (length text) buf_size s.room s.small

    echo_key :
        (c : ℕ)
        → c ≢ enter
        → GoesOn buf_size (edit (buf_size - 1) text c) (echo_step handle_tab buf_size c e)
    unfolding echo_step edit
    echo_key c ne = elim (Bool-cases (c == backspace)) [
      | inl b ↦ elim (Bool-cases (e.buffer_index == 0)) [
        | inl z ↦ (
          e,
          rw (==_ne c enter ne, b, z),
          rw b (rw (none_to_erase text (omega (arith, s.index, (==_iff e.buffer_index 0).0 z))) s),
        )
        | inr z ↦ (
          erase (e.printed ++ rubout) e,
          rw (==_ne c enter ne, b, z) refl,
          rw b (erased buf_size text e s _ z),
        )
      ]
      | inr b ↦ elim (Bool-cases (c == tab)) [
        | inl t ↦ (
          mark (e.printed ++ handle_tab (set e.buf e.buffer_index 0) e.buffer_index) e,
          rw (inside buf_size text e s, ==_ne c enter ne, b, t) refl,
          rw (b, t) (marked buf_size text e s _),
        )
        | inr t ↦ elim (Bool-cases (ltb (length text) (buf_size - 1))) [
          | inl r ↦ (
            type_in c (e.printed ++ c ∷ []) e,
            rw (==_ne c enter ne, b, t, s.index, compared, r, inside') refl,
            rw (b, t, r) (typed buf_size text e s c _ (ltb→lt (length text) (buf_size - 1) r)),
          )
          | inr r ↦ (e, rw (==_ne c enter ne, b, t, s.index, compared, r), rw (b, t, r) s)
        ]
      ]
    ]

    silent_key :
        (c : ℕ)
        → c ≢ enter
        → GoesOn buf_size (edit (buf_size - 1) text c) (silent_step handle_tab buf_size number c e)
    unfolding silent_step edit
    silent_key c ne = elim (Bool-cases (c == backspace)) [
      | inl b ↦ elim (Bool-cases (e.buffer_index == 0)) [
        | inl z ↦ (
          e,
          rw (==_ne c enter ne, b, z),
          rw b (rw (none_to_erase text (omega (arith, s.index, (==_iff e.buffer_index 0).0 z))) s),
        )
        | inr z ↦ (
          erase e.printed e,
          rw (==_ne c enter ne, b, z) refl,
          rw b (erased buf_size text e s _ z),
        )
      ]
      | inr b ↦ elim (Bool-cases (c == tab)) [
        | inl t ↦ (
          record e {
            printed = e.printed ++ (handle_tab e.buf e.buffer_index ++ number e.buffer_index);
          },
          rw (==_ne c enter ne, b, t) refl,
          rw (b, t)
              (record {
                size = s.size;
                small = s.small;
                index = s.index;
                room = s.room;
                prefix = s.prefix;
              }),
        )
        | inr t ↦ elim (Bool-cases (ltb (length text) (buf_size - 1))) [
          | inl r ↦ (
            type_in c e.printed e,
            rw (==_ne c enter ne, b, t, s.index, compared, r, inside') refl,
            rw (b, t, r) (typed buf_size text e s c _ (ltb→lt (length text) (buf_size - 1) r)),
          )
          | inr r ↦ (e, rw (==_ne c enter ne, b, t, s.index, compared, r), rw (b, t, r) s)
        ]
      ]
    ]

    ended : Returns buf_size text (returned (mark e.printed e))
    ended =
        let one : suc (length text) ≡ suc e.buffer_index = omega (arith, s.index) in
        (
          mark e.printed e,
          refl,
          s.index,
          length-set e.buf e.buffer_index 0 ∙ s.size,
          rw one (
              take-set_behind e.buffer_index 0 e.buf (omega (arith, s.index, s.size, s.room))
              ∙ ap (λ l. l ++ 0 ∷ []) s.prefix),
        )

    echo_enter : Returns buf_size text (echo_step handle_tab buf_size enter e)
    unfolding echo_step
    echo_enter = rw (inside buf_size text e s) ended

    silent_enter : Returns buf_size text (silent_step handle_tab buf_size number enter e)
    unfolding silent_step
    silent_enter = rw (inside buf_size text e s) ended

-- The loop, for a step that edits the text at every key but Enter, and returns at Enter.
module _ (buf_size : ℕ) (step : ℕ → Editor → Outcome) (rest : List ℕ) where
  run_lem :
      ((text : List ℕ) (e : Editor)
        → Shows buf_size text e
        → (c : ℕ) → c ≢ enter
        → GoesOn buf_size (edit (buf_size - 1) text c) (step c e))
      → ((text : List ℕ) (e : Editor)
          → Shows buf_size text e
          → Returns buf_size text (step enter e))
      → (keys text : List ℕ) (e : Editor) → All (λ c. c ≢ enter) keys
      → Shows buf_size text e
      → Returns buf_size (edits (buf_size - 1) text keys) (run step (keys ++ enter ∷ rest) e)
  unfolding run edits
  run_lem on end [] text e h s = let (e', p, q, z, t) = end text e s in (e', rw p, q, z, t)
  run_lem on end (c ∷ keys) text e h s =
      let (e', p, s') = on text e s c h.0 in
      rw p (run_lem on end keys (edit (buf_size - 1) text c) e' h.1 s')

fresh-Shows :
    (buf : List ℕ) → 0 < length buf → length buf < 2 ^ 31 → Shows (length buf) [] (fresh buf)
fresh-Shows buf h small = record {
  size = refl;
  small = small;
  index = refl;
  room = h;
  prefix = refl;
}

module _ (handle_tab : List ℕ → ℕ → List ℕ) (buf keys rest : List ℕ) where
  -- With a buffer of a size that is a positive int and keys up to the first Enter, `read_input_echo` never writes
  -- outside of the buffer, returns at the Enter, and leaves the edited text, cut at what the buffer
  -- holds, with a NUL behind it; its result is the length of that text.
  pub read_input_echo_lem :
      0 < length buf
      → length buf < 2 ^ 31
      → All (λ c. c ≢ enter) keys
      → Returns
          (length buf)
          (edits (length buf - 1) [] keys)
          (read_input_echo handle_tab (length buf) buf (keys ++ enter ∷ rest))
  unfolding read_input_echo
  read_input_echo_lem h small k =
      run_lem (length buf) (echo_step handle_tab (length buf)) rest
        (echo_key handle_tab (λ n. []) (length buf)) (echo_enter handle_tab (λ n. []) (length buf))
        keys [] (fresh buf) k (fresh-Shows buf h small)

  -- `read_input_silent` leaves the same text in the same way.
  pub read_input_silent_lem :
      (number : ℕ → List ℕ)
      → 0 < length buf
      → length buf < 2 ^ 31
      → All (λ c. c ≢ enter) keys
      → Returns
          (length buf)
          (edits (length buf - 1) [] keys)
          (read_input_silent handle_tab number (length buf) buf (keys ++ enter ∷ rest))
  unfolding read_input_silent
  read_input_silent_lem number h small k =
      run_lem (length buf) (silent_step handle_tab (length buf) number) rest
        (silent_key handle_tab number (length buf)) (silent_enter handle_tab number (length buf))
        keys [] (fresh buf) k (fresh-Shows buf h small)
