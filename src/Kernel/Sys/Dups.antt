-- ===== src/Kernel/Sys/Dups.antt =====
-- `dup2`: two descriptors share one open file, its offset included.
use os_shell.Common.{
  ℕ, ◌<◌, ◌≡◌, ◌≢◌, inl, inr, none, some, arith, ap, sym, ◌∙◌, ltb, lt→ltb, ltb→lt, ltb→le, ==_ne,
  ==_refl, Bool-cases,
}
use os_shell.Kernel.Process.{Process, get_file, n_file, dup2}
use os_shell.Kernel.Process.Tables.{IsValid}
use os_shell.Kernel.Process.Files.{dup2_lem, get_file_lem, get_file_out}
use os_shell.Kernel.Sys.{System, returns, sys_read, sys_write, sys_seek, sys_len, sys_dup2}

-- Two descriptors behave alike, where neither is 1, which is not read and has no offset set.
abbrev pub AreShared : ℕ → ℕ → System → Type 0
AreShared fd fd' s =
    ((me buf n : ℕ) → sys_write me fd buf n s ≡ sys_write me fd' buf n s)
    × (sys_len fd s ≡ sys_len fd' s)
    × (fd ≢ 1
        → fd' ≢ 1
        → ((me buf n : ℕ) → sys_read me fd buf n s ≡ sys_read me fd' buf n s)
          × ((offset : ℕ) → sys_seek fd offset s ≡ sys_seek fd' offset s))

get_file-AreShared :
    (fd fd' : ℕ) (s : System) → get_file fd s.process ≡ get_file fd' s.process → AreShared fd fd' s
unfolding sys_write sys_len sys_read sys_seek
get_file-AreShared fd fd' s e = (
  λ me buf n. rw (e, sys_write),
  rw (e, sys_len),
  λ ne ne'. (
    λ me buf n. rw (==_ne fd 1 ne, ==_ne fd' 1 ne') (rw e),
    λ offset. rw (==_ne fd 1 ne, ==_ne fd' 1 ne') (rw e),
  ),
)

some-ne-none : {x : ℕ} → some x ≢ none
some-ne-none h = cc

open-small : (fd : ℕ) (p : Process) {ref : ℕ} → get_file fd p ≡ some ref → fd < n_file
open-small fd p h = elim (Bool-cases (ltb fd n_file)) [
  | inl e ↦ ltb→lt fd n_file e
  | inr e ↦ absurd (some-ne-none (sym h ∙ get_file_out fd p (ltb→le fd n_file e)))
]

-- `dup2` of an open descriptor to one in range, in a process whose tables are valid, makes the two
-- stand for one file: a write or len of the one is that of the other, and where neither is 1, so is a
-- read or seek.
pub sys_dup2-AreShared :
    (old new : ℕ) (s : System) (ref : ℕ)
    → IsValid s.process
    → get_file old s.process ≡ some ref
    → new < n_file
    → (s' : System) × (sys_dup2 old new s ≡ returns new s')
      × (get_file new s'.process ≡ some ref)
      × (get_file old s'.process ≡ some ref)
      × AreShared new old s'
unfolding sys_dup2
sys_dup2-AreShared old new s ref valid open_old small =
    let q = (dup2 old new s.process).1 in
    let s' = record s { process = q } in
    let shared = λ (a : get_file new q ≡ some ref) (b : get_file old q ≡ some ref).
      get_file-AreShared new old s' (a ∙ sym b) in
    elim (dup2_lem old new s.process valid) [
      | inl (same, r, p) ↦
          let b : get_file old q ≡ some ref = ap (get_file old) p ∙ open_old in
          let a : get_file new q ≡ some ref = ap (λ fd. get_file fd q) (sym same) ∙ b in
          (s', ap (λ x. returns x s') r, a, b, shared a b)
      | inr (inl (ne, inl closed, r, p)) ↦ absurd (some-ne-none (sym open_old ∙ closed))
      | inr (inl (ne, inr far, r, p)) ↦ absurd (omega arith)
      | inr (inr (ne, o, n, r, u, v)) ↦
          let inside = open-small old s.process open_old in
          let a : get_file new q ≡ some ref =
            get_file_lem new q v ∙ rw (lt→ltb _ _ n) (u new ∙ rw (==_refl new) open_old) in
          let b : get_file old q ≡ some ref =
            get_file_lem old q v
            ∙ rw (lt→ltb _ _ inside) (
                u old
                ∙ rw (==_ne old new ne) (
                    sym (rw (get_file_lem old s.process valid) (rw (lt→ltb _ _ inside)))
                    ∙ open_old)) in
          (s', ap (λ x. returns x s') r, a, b, shared a b)
    ]
