-- ===== src/Kernel/Cwd/Changes.antt =====
-- The working directory after cd, and what pwd makes of it.
use os_shell.Common.{
  ℕ, suc, ◌+◌, ◌^◌, ◌<◌, ◌≤◌, ◌≡◌, ◌≢◌, ◌⊎◌, inl, inr, refl, some, List, [], ◌∷◌, ◌++◌, arith, ap,
  ap₂, ◌∙◌, length, length-append, take_all, ◌==◌, ==_ne, Bool-cases, false, ◌&&◌, All-append,
  get_or,
}
use os_shell.Common.Memory.{bytes_at-store_apart, bytes_at-store_self}
use os_shell.Common.Text.{IsText, bytes_at, store}
use os_shell.Kernel.Cwd.{copy_text, set_cwd, sys_pwd, cd_down, sys_cd}
use os_shell.Kernel.Cwd.Texts.{
  IsForward, memcpy_lem, Holds, Holds-bytes, Holds-join, copy_text-Holds, copy_text-bytes,
  strlen_at-Holds,
}

-- Two ranges that do not meet.
abbrev pub IsApart : ℕ → ℕ → ℕ → ℕ → Type 0
IsApart a n b k = (a + n ≤ b) ⊎ (b + k ≤ a)

-- A name at `added_path` and a working directory `dir`, with room for `dir`, a slash and the name at
-- `added_path` and at `cwd`, and room for the name at `empty`.
pub record HasRoom (cwd empty added_path : ℕ) (dir name : List ℕ) (memory : ℕ → ℕ) : Type 0 where
  pub dir_text : IsText dir
  pub name_text : IsText name
  pub at_cwd : Holds memory cwd dir
  pub at_added : Holds memory added_path name
  pub cwd_apart :
      IsApart cwd (length dir + length name + 2) added_path (length dir + length name + 2)
  pub empty_apart : IsApart empty (length name + 1) added_path (length dir + length name + 2)
  pub literals_apart : IsApart empty (length name + 1) cwd (length dir + length name + 2)
  pub cwd_in : cwd + length dir + length name + 2 < 2 ^ 32
  pub added_in : added_path + length dir + length name + 2 < 2 ^ 32

module _ (cwd empty added_path : ℕ) (dir name : List ℕ) (memory : ℕ → ℕ)
    (ok : HasRoom cwd empty added_path dir name memory) where
  abbrev d : ℕ
  d = length dir

  abbrev n : ℕ
  n = length name

  abbrev m1 : ℕ → ℕ
  m1 = copy_text empty added_path n memory

  abbrev m3 : ℕ → ℕ
  m3 = store (store m1 added_path (bytes_at m1 cwd d)) (added_path + d) (b'/' ∷ [])

  abbrev m4 : ℕ → ℕ
  m4 = copy_text (added_path + d + 1) empty n m3

  -- The copies do not read what they write.
  to_empty : IsForward empty added_path n
  to_empty = elim ok.empty_apart [ inl l ↦ inl (omega arith) | inr r ↦ inr (omega arith) ]

  to_path : IsForward added_path cwd d
  to_path = elim ok.cwd_apart [ inl l ↦ inr (omega arith) | inr r ↦ inl (omega arith) ]

  to_name : IsForward (added_path + d + 1) empty n
  to_name = elim ok.empty_apart [ inl l ↦ inr (omega arith) | inr r ↦ inl (omega arith) ]

  m1-empty : Holds m1 empty name
  m1-empty =
      copy_text-Holds empty added_path name memory to_empty
        (Holds-bytes added_path memory name ok.at_added)

  m1-cwd : Holds m1 cwd dir
  m1-cwd =
      copy_text-bytes empty added_path name memory to_empty cwd (suc d)
        (elim ok.literals_apart [ inl l ↦ inr (omega arith) | inr r ↦ inl (omega arith) ])
      ∙ ok.at_cwd

  m1-dir : bytes_at m1 cwd d ≡ dir
  m1-dir = Holds-bytes cwd m1 dir m1-cwd

  -- The bytes of a range that the path to come does not meet.
  m3-bytes : (a k : ℕ) → IsApart a k added_path (d + 1) → bytes_at m3 a k ≡ bytes_at m1 a k
  m3-bytes a k far =
      let size : length (bytes_at m1 cwd d) ≡ d = ap length m1-dir in
      bytes_at-store_apart (store m1 added_path (bytes_at m1 cwd d)) (added_path + d) (b'/' ∷ []) a
        k (elim far [ inl l ↦ inl (omega arith) | inr r ↦ inr (omega arith) ])
      ∙ bytes_at-store_apart m1 added_path (bytes_at m1 cwd d) a k
          (elim far [ inl l ↦ inl (omega arith) | inr r ↦ inr (omega arith) ])

  m4-name : Holds m4 (added_path + d + 1) name
  m4-name = copy_text-Holds (added_path + d + 1) empty name m3 to_name (
      m3-bytes empty n
        (elim ok.empty_apart [ inl l ↦ inl (omega arith) | inr r ↦ inr (omega arith) ])
      ∙ Holds-bytes empty m1 name m1-empty)

  m4-dir : bytes_at m4 added_path d ≡ dir
  m4-dir =
      copy_text-bytes (added_path + d + 1) empty name m3 to_name added_path d (inl (omega arith))
      ∙ bytes_at-store_apart (store m1 added_path (bytes_at m1 cwd d)) (added_path + d) (b'/' ∷ [])
          added_path d (inl (omega arith))
      ∙ rw m1-dir
          (bytes_at-store_self m1 added_path dir d (omega arith) ∙ take_all d dir (omega arith))

  m4-slash : bytes_at m4 (added_path + d) 1 ≡ b'/' ∷ []
  m4-slash =
      copy_text-bytes (added_path + d + 1) empty name m3 to_name (added_path + d) 1
        (inl (omega arith))
      ∙ bytes_at-store_self (store m1 added_path (bytes_at m1 cwd d)) (added_path + d) (b'/' ∷ []) 1
          (omega arith)

  m4-path : Holds m4 added_path (dir ++ b'/' ∷ name)
  m4-path =
      Holds-join added_path m4 dir (b'/' ∷ name) m4-dir
        (ap₂ ◌∷◌ (ap (λ l. get_or l 0 0) m4-slash) m4-name)

  m4-cwd : Holds m4 cwd dir
  m4-cwd =
      let far = ok.cwd_apart in
      copy_text-bytes (added_path + d + 1) empty name m3 to_name cwd (suc d)
        (elim far [ inl l ↦ inl (omega arith) | inr r ↦ inr (omega arith) ])
      ∙ m3-bytes cwd (suc d) (elim far [ inl l ↦ inl (omega arith) | inr r ↦ inr (omega arith) ])
      ∙ m1-cwd

  cd_down_lem : cd_down cwd empty added_path n memory ≡ some m4
  unfolding cd_down
  cd_down_lem =
      rw (strlen_at-Holds dir ok.dir_text cwd m1 (let l = ok.cwd_in in omega arith) m1-cwd) (
        ap
          (λ m.
            some (copy_text (added_path + d + 1) empty n (store m (added_path + d) (b'/' ∷ []))))
          (memcpy_lem d added_path cwd m1 to_path))

  path-IsText : IsText (dir ++ b'/' ∷ name)
  path-IsText =
      All-append (λ c. c ≢ 0) dir (b'/' ∷ name)
        (ok.dir_text, (λ z. absurd (omega arith), ok.name_text))

-- The tests of cd on a name that is neither of the two special ones.
not_dots :
    (name : List ℕ) (a : ℕ) (memory : ℕ → ℕ)
    → Holds memory a name
    → name ≢ b'.' ∷ b'.' ∷ []
    → (length name == 2 && (memory a == b'.' && memory (a + 1) == b'.')) ≡ false
not_dots [] a memory h ne = refl
not_dots (c ∷ []) a memory h ne = refl
not_dots (c ∷ e ∷ []) a memory h ne = elim (Bool-cases (c == b'.')) [
  | inl x ↦ elim (Bool-cases (e == b'.')) [
    | inl y ↦
        let c_is : c ≡ b'.' = ground arith in
        let e_is : e ≡ b'.' = ground arith in absurd (ne (ap₂ (λ v w. v ∷ w ∷ []) c_is e_is))
    | inr y ↦
        let second : memory (a + 1) ≡ e = ap (λ l. get_or l 1 0) h in
        rw second (rw y (ground arith))
  ]
  | inr x ↦ let first : memory a ≡ c = ap (λ l. get_or l 0 0) h in rw first (rw x refl)
]
not_dots (c ∷ e ∷ f ∷ name) a memory h ne =
    let big : (suc (suc (suc (length name))) == 2) ≡ false = ground arith in rw big refl

not_dot :
    (name : List ℕ) (a : ℕ) (memory : ℕ → ℕ)
    → Holds memory a name
    → name ≢ b'.' ∷ []
    → (length name == 1 && memory a == b'.') ≡ false
not_dot [] a memory h ne = refl
not_dot (c ∷ []) a memory h ne =
    let first : memory a ≡ c = ap (λ l. get_or l 0 0) h in
    rw first (elim (Bool-cases (c == b'.')) [
      | inl x ↦ let c_is : c ≡ b'.' = ground arith in absurd (ne (ap (λ v. v ∷ []) c_is))
      | inr x ↦ x
    ])
not_dot (c ∷ e ∷ name) a memory h ne =
    let big : (suc (suc (length name)) == 1) ≡ false = ground arith in rw big refl

-- What cd and pwd come to, for a working directory that is to be `path`.
abbrev pub Changed : ℕ → ℕ → ℕ → ℕ → ℕ → List ℕ → List ℕ → (ℕ → ℕ) → Type 0
Changed cwd empty added_path path_checked buffer dir path memory =
    (memory1 memory2 memory3 : ℕ → ℕ) × (sys_cd cwd empty added_path 0 memory ≡ some memory1)
    × Holds memory1 added_path path
    × Holds memory1 cwd dir
    × (sys_cd cwd empty added_path path_checked memory1 ≡ some memory2)
    × Holds memory2 cwd path
    × (sys_pwd cwd empty buffer memory2 ≡ some memory3)
    × Holds memory3 buffer path

-- cd to a name that is neither "." nor "..", in memory with room for the new path: the first call
-- makes the path of the name in the working directory and leaves the working directory alone, the
-- second call, with a test that succeeded, makes that path the working directory, and pwd then gives
-- it in every buffer that does not begin inside of that path.
pub cd_pwd :
    (cwd empty added_path path_checked buffer : ℕ) (dir name : List ℕ) (memory : ℕ → ℕ)
    → HasRoom cwd empty added_path dir name memory
    → name ≢ b'.' ∷ []
    → name ≢ b'.' ∷ b'.' ∷ []
    → path_checked ≢ 0
    → IsForward buffer cwd (length (dir ++ b'/' ∷ name))
    → Changed cwd empty added_path path_checked buffer dir (dir ++ b'/' ∷ name) memory
unfolding sys_cd set_cwd sys_pwd
cd_pwd cwd empty added_path path_checked buffer dir name memory ok one two checked clear =
    let path = dir ++ b'/' ∷ name in
    let size : length path ≡ length dir + length name + 1 =
      omega (arith, length-append dir (b'/' ∷ name)) in
    let bound = ok.added_in in
    let bound' = ok.cwd_in in
    let is = path-IsText cwd empty added_path dir name memory ok in
    let m4' = m4 cwd empty added_path dir name memory ok in
    let there = m4-path cwd empty added_path dir name memory ok in
    let len = strlen_at-Holds name ok.name_text added_path memory (omega arith) ok.at_added in
    let m5 = copy_text cwd added_path (length path) m4' in
    let back : IsForward cwd added_path (length path) = elim ok.cwd_apart [
      | inl l ↦ inl (omega arith)
      | inr r ↦ inr (omega arith)
    ] in
    let now =
      copy_text-Holds cwd added_path path m4' back (Holds-bytes added_path m4' path there) in
    (
      m4',
      m5,
      copy_text buffer cwd (length path) m5,
      rw (sys_cd, len)
          (rw
            (
              not_dots name added_path memory ok.at_added two,
              not_dot name added_path memory ok.at_added one,
            )
            (cd_down_lem cwd empty added_path dir name memory ok)),
      there,
      m4-cwd cwd empty added_path dir name memory ok,
      rw (sys_cd, ==_ne path_checked 0 checked)
          (rw (set_cwd, strlen_at-Holds path is added_path m4' (omega arith) there) refl),
      now,
      rw (sys_pwd, strlen_at-Holds path is cwd m5 (omega arith) now) refl,
      copy_text-Holds buffer cwd path m5 clear (Holds-bytes cwd m5 path now),
    )
