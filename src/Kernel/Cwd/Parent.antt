-- ===== src/Kernel/Cwd/Parent.antt =====
-- cd to the parent.
use os_shell.Common.{
  ℕ, zero, suc, ◌+◌, ◌-◌, ◌^◌, ◌<◌, ◌≤◌, ◌≡◌, ◌≢◌, refl, some, List, [], ◌∷◌, ◌++◌, arith, drop, ap,
  ap₂, sym, ◌∙◌, length, length-append, take_all, ◌==◌, ==_ne, All, false, ◌&&◌, leb, ltb, get_or,
  append_assoc, Bool-cases, inl, inr,
}
use os_shell.Common.Memory.{bytes_at-store_self}
use os_shell.Common.Text.{cstr, IsText, bytes_at}
use os_shell.Kernel.Cwd.{memcpy, last_slash, cd_parent, sys_cd}
use os_shell.Kernel.Cwd.Texts.{IsForward, memcpy_lem, Holds, Holds-bytes, strlen_at-Holds}

byte_at : (memory : ℕ → ℕ) (a n i : ℕ) → i < n → get_or (bytes_at memory a n) i 0 ≡ memory (a + i)
byte_at memory a zero i h = absurd (omega arith)
byte_at memory a (suc n) zero h = ap memory (omega arith)
byte_at memory a (suc n) (suc i) h =
    byte_at memory (a + 1) n i (omega arith) ∙ ap memory (omega arith)

bytes_prefix :
    (memory : ℕ → ℕ) (a : ℕ) (xs ys : List ℕ)
    → bytes_at memory a (length (xs ++ ys)) ≡ xs ++ ys
    → bytes_at memory a (length xs) ≡ xs
bytes_prefix memory a [] ys e = refl
bytes_prefix memory a (x ∷ xs) ys e =
    ap₂ ◌∷◌ (ap (λ l. get_or l 0 0) e) (bytes_prefix memory (a + 1) xs ys (ap (drop 1) e))

get_or-behind : (xs ys : List ℕ) (i : ℕ) → get_or (xs ++ ys) (length xs + i) 0 ≡ get_or ys i 0
get_or-behind [] ys i = ap (λ j. get_or ys j 0) (omega arith)
get_or-behind (x ∷ xs) ys i =
    let e : suc (length xs) + i ≡ suc (length xs + i) = omega arith in rw e (get_or-behind xs ys i)

All-get_or : (xs : List ℕ) (i : ℕ) → All (λ c. c ≢ b'/') xs → i < length xs → get_or xs i 0 ≢ b'/'
All-get_or [] i h k = absurd (omega arith)
All-get_or (x ∷ xs) zero h k = h.0
All-get_or (x ∷ xs) (suc i) h k = All-get_or xs i h.1 (omega arith)

slash_here : (memory : ℕ → ℕ) (a k : ℕ) → memory (a + k) ≡ b'/' → last_slash memory a k ≡ some k
unfolding last_slash
slash_here memory a zero e = let e' : memory a ≡ b'/' = ap memory (omega arith) ∙ e in rw e' refl
slash_here memory a (suc k) e = rw e refl

slash_before :
    (memory : ℕ → ℕ) (a u j k : ℕ)
    → k ≡ u + j
    → memory (a + u) ≡ b'/'
    → ((i : ℕ) → 0 < i → i ≤ j → memory (a + u + i) ≢ b'/')
    → last_slash memory a k ≡ some u
unfolding last_slash
slash_before memory a u zero k at slash no_other =
    let e : k ≡ u = omega arith in rw e (slash_here memory a u slash)
slash_before memory a u (suc j) zero at slash no_other = absurd (omega arith)
slash_before memory a u (suc j) (suc k) at slash no_other =
    let here : a + suc k ≡ a + u + suc j = omega arith in
    let ne : memory (a + suc k) ≢ b'/' =
      λ e. no_other (suc j) (omega arith) (omega arith) (ap memory (sym here) ∙ e) in
    rw (last_slash, ==_ne (memory (a + suc k)) b'/' ne)
      (slash_before memory a u j k (omega arith) slash (λ i lo hi. no_other i lo (omega arith)))

-- No byte of a text is its NUL.
text_byte : (xs ys : List ℕ) (i : ℕ) → IsText xs → i < length xs → get_or (xs ++ ys) i 0 ≢ 0
text_byte [] ys i h k = absurd (omega arith)
text_byte (x ∷ xs) ys zero h k = h.0
text_byte (x ∷ xs) ys (suc i) h k = text_byte xs ys i h.1 (omega arith)

module _ (cwd empty added_path : ℕ) (up last : List ℕ) (memory : ℕ → ℕ) where
  abbrev dir : List ℕ
  dir = up ++ b'/' ∷ last

  found :
      Holds memory cwd dir
      → All (λ c. c ≢ b'/') last
      → last_slash memory cwd (length dir - 1) ≡ some (length up)
  found there plain =
      let u = length up in
      let size : length dir ≡ u + suc (length last) = length-append up (b'/' ∷ last) in
      let byte : (i : ℕ) → i < suc (length last) → memory (cwd + u + i) ≡ get_or (b'/' ∷ last) i 0 =
        λ i h.
          let at : cwd + (u + i) ≡ cwd + u + i = omega arith in
          ap memory (sym at)
          ∙ sym (byte_at memory cwd (length dir) (u + i) (omega arith))
          ∙ ap (λ l. get_or l (u + i) 0) (Holds-bytes cwd memory dir there)
          ∙ get_or-behind up (b'/' ∷ last) i in
      slash_before memory cwd u (length last) (length dir - 1) (omega arith)
        (ap memory (omega arith) ∙ byte 0 (omega arith))
        (λ i lo hi e.
          let j : i ≡ suc (i - 1) = omega arith in
          All-get_or last (i - 1) plain (omega arith)
            (ap (λ k. get_or (b'/' ∷ last) k 0) (sym j) ∙ sym (byte i (omega arith)) ∙ e))

  -- The byte at a place in the working directory, its NUL included.
  dir_byte :
      Holds memory cwd dir
      → (i : ℕ) → i < suc (length dir)
      → memory (cwd + i) ≡ get_or (dir ++ 0 ∷ []) i 0
  dir_byte there i h =
      sym (byte_at memory cwd (suc (length dir)) i h) ∙ ap (λ l. get_or l i 0) there

  -- "..", with its NUL, does not begin in the part of the working directory that is copied.
  path_apart :
      Holds memory cwd dir
      → IsText dir
      → Holds memory added_path (b'.' ∷ b'.' ∷ [])
      → IsForward added_path cwd (length up)
  path_apart there is dots =
      let u = length up in
      let size : length dir ≡ u + suc (length last) = length-append up (b'/' ∷ last) in
      let slash : memory (cwd + u) ≡ b'/' =
        dir_byte there u (omega arith)
        ∙ ap (λ l. get_or l u 0) (append_assoc up (b'/' ∷ last) (0 ∷ []))
        ∙ ap (λ i. get_or (up ++ cstr (b'/' ∷ last)) i 0) (omega arith)
        ∙ get_or-behind up (cstr (b'/' ∷ last)) 0 in
      let second : memory (added_path + 1) ≡ b'.' = ap (λ l. get_or l 1 0) dots in
      let third : memory (added_path + 1 + 1) ≡ 0 = ap (λ l. get_or l 2 0) dots in
      elim (Bool-cases (leb added_path cwd)) [
        | inl before ↦ inl (ground arith)
        | inr behind ↦ elim (Bool-cases (leb (cwd + u) (added_path + 1))) [
          | inl near ↦ elim (Bool-cases (leb (cwd + u) added_path)) [
            | inl beyond ↦ inr (ground arith)
            | inr within ↦
                let at : cwd + u ≡ added_path + 1 = ground arith in
                absurd (omega (arith, slash, second, ap memory at))
          ]
          | inr far ↦
              let i = added_path + 1 + 1 - cwd in
              let at : cwd + i ≡ added_path + 1 + 1 = ground arith in
              let low : i < length dir = ground arith in
              absurd (
                text_byte dir (0 ∷ []) i is low
                  (sym (dir_byte there i (omega arith)) ∙ ap memory at ∙ third))
        ]
      ]

  -- cd to ".." in a working directory `up`/`last`: what is at `added_path` then begins with `up`, and
  -- no byte behind that is written. So no NUL ends the new path but where one happened to stand.
  pub cd_parent_lem :
      Holds memory cwd dir
      → IsText dir
      → All (λ c. c ≢ b'/') last
      → 0 < length up
      → Holds memory added_path (b'.' ∷ b'.' ∷ [])
      → cwd + length dir < 2 ^ 32
      → added_path + 2 < 2 ^ 32
      → (memory' : ℕ → ℕ) × (sys_cd cwd empty added_path 0 memory ≡ some memory')
        × (bytes_at memory' added_path (length up) ≡ up)
        × ((a : ℕ) → added_path + length up ≤ a → memory' a ≡ memory a)
  unfolding sys_cd cd_parent
  cd_parent_lem there is plain some_up dots bound bound' =
      let first : memory added_path ≡ b'.' = ap (λ l. get_or l 0 0) dots in
      let second : memory (added_path + 1) ≡ b'.' = ap (λ l. get_or l 1 0) dots in
      let size : length dir ≡ length up + suc (length last) = length-append up (b'/' ∷ last) in
      let some_dir : (length dir == 0) ≡ false = ground arith in
      let copied : bytes_at memory cwd (length up) ≡ up =
        bytes_prefix memory cwd up (b'/' ∷ last) (Holds-bytes cwd memory dir there) in
      let moved = memcpy_lem (length up) added_path cwd memory (path_apart there is dots) in
      (
        memcpy added_path cwd (length up) memory,
        rw
            (
              sys_cd,
              strlen_at-Holds (b'.' ∷ b'.' ∷ []) (omega arith) added_path memory (omega arith) dots,
            )
            (rw (first, second)
              (rw (cd_parent, strlen_at-Holds dir is cwd memory bound there)
                (rw (some_dir, found there plain)
                  (rw (==_ne (length up) 0 (λ e. omega arith)) refl)))),
        ap (λ m. bytes_at m added_path (length up)) moved
            ∙ rw copied (
                bytes_at-store_self memory added_path up (length up) (omega arith)
                ∙ take_all (length up) up (omega arith)),
        λ a h.
            let out : (leb added_path a && ltb a (added_path + length up)) ≡ false = ground arith in
            ap (λ m. m a) moved ∙ rw copied (rw out refl),
      )
