-- ===== src/Kernel/Vmm/Unmaps.antt =====
-- Unmapping a page.
use os_shell.Common.{
  ℕ, ◌/◌, ◌^◌, ◌<◌, ◌≡◌, ◌≢◌, inl, inr, refl, true, false, Bool, none, some, List, ◌∷◌, arith,
  ==_ne, if◌then◌else◌, Bool-cases, ap, sym, ◌∙◌, subst,
}
use os_shell.Kernel.PhysMem.{Memory}
use os_shell.Kernel.PhysMem.Valid.{disown}
use os_shell.Kernel.PhysMem.Frames.{dealloc_frame_lem}
use os_shell.Kernel.Vmm.{entry, frame_of, is_present, pd_index, pt_index, write, unmap}
use os_shell.Kernel.Vmm.Maps.{
  IsMapped, root_same, translate-same, written-IsSpace, written_here, written_other,
}
use os_shell.Kernel.Vmm.Walk.{pte_at, translate, write-IsValid}
use os_shell.Kernel.Vmm.Freed.{
  IsPrivate, root_kept, freed-IsSpace, freed-pte_at, Unmapped, UnmapsTo,
}

-- The addresses of a page have one entry.
pub page_pte : (w : ℕ → ℕ) (pd va vb : ℕ) → vb / 4096 ≡ va / 4096 → pte_at w pd vb ≡ pte_at w pd va
page_pte w pd va vb same =
    let i0 : pd_index vb ≡ pd_index va = omega arith in
    let i1 : pt_index vb ≡ pt_index va = omega arith in rw (i0, i1) refl

translate-absent :
    (w : ℕ → ℕ) (pd va vb : ℕ)
    → vb / 4096 ≡ va / 4096
    → is_present (pte_at w pd va) ≡ false
    → translate w pd vb ≡ none
translate-absent w pd va vb same absent = rw (page_pte w pd va vb same, absent) refl

unmap-absent :
    (m : Memory) (pd va : ℕ) → is_present (pte_at m.words pd va) ≡ false → unmap pd va m ≡ some m
unfolding unmap
unmap-absent m pd va absent = elim (Bool-cases (is_present (m.words (entry pd (pd_index va))))) [
  | inr e ↦ rw e refl
  | inl e ↦
      let pte = m.words (entry (frame_of (m.words (entry pd (pd_index va)))) (pt_index va)) in
      let there : is_present pte ≡ false =
        subst (λ b. is_present (if b then pte else 0) ≡ false) e absent in
      rw e (rw there refl)
]

module _ (start : ℕ) (owned : ℕ → Bool) (m : Memory) (free : List ℕ) (pd va : ℕ)
    (ok : IsMapped start owned m free pd) (small : va < 2 ^ 32)
    (there : is_present (m.words (entry pd (pd_index va))) ≡ true) where
  abbrev pte : ℕ
  pte = m.words (entry (frame_of (m.words (entry pd (pd_index va)))) (pt_index va))

  -- The memory with the entry cleared.
  abbrev m1 : Memory
  m1 = write (entry (frame_of (m.words (entry pd (pd_index va)))) (pt_index va)) 0 m

  m1-IsMapped : IsMapped start owned m1 free pd
  m1-IsMapped = record {
    valid =
        write-IsValid start (frame_of (m.words (entry pd (pd_index va)))) (pt_index va) 0 owned m
          free ok.valid (ok.space.tables (pd_index va) (omega arith) there).0 (omega arith);
    space = written-IsSpace owned m.words pd va 0 ok.space small there;
  }

  m1-IsPrivate : (p : ℕ) → IsPrivate owned m.words pd p → IsPrivate owned m1.words pd p
  m1-IsPrivate p (o, ne, tables) = (
    o,
    ne,
    λ j h pj.
        let at_j = root_same owned m.words pd va 0 ok.space small there j h in
        λ e. tables j h (subst (λ x. is_present x ≡ true) at_j pj) (ap frame_of (sym at_j) ∙ e),
  )

  unmap-present :
      is_present pte ≡ true
      → IsPrivate owned m.words pd (frame_of pte)
      → UnmapsTo start owned m pd va (unmap pd va m)
  unfolding unmap
  unmap-present mapped private =
      let p = frame_of pte in
      let is : pte_at m.words pd va ≡ pte = rw there refl in
      let private1 = m1-IsPrivate p private in
      let space1 = m1-IsMapped.space in
      let (m2, e2, words2, valid2) =
        dealloc_frame_lem start owned p m1 free m1-IsMapped.valid private.0 in
      let same =
        freed-pte_at owned m1.words m2.words pd p m1.first_free space1 private1 (omega arith)
          words2 in
      let gone : is_present (pte_at m2.words pd va) ≡ false =
        ap is_present (same va small ∙ written_here owned m.words pd va 0 ok.space small there) in
      (
        m2,
        disown owned p,
        p ∷ free,
        rw there (rw mapped e2),
        record {
          mapped = record {
            valid = valid2;
            space =
                freed-IsSpace owned m1.words m2.words pd p m1.first_free space1 private1
                  (omega arith) words2;
          };
          freed = λ e. rw is (ground arith);
          gone = gone;
          others =
              λ vb h n. same vb h ∙ written_other owned m.words pd va 0 ok.space small there vb h n;
          roots = λ i h.
              root_kept owned m1.words m2.words pd p m1.first_free space1 private1 (omega arith)
                words2 i h
              ∙ root_same owned m.words pd va 0 ok.space small there i h;
          keeps = λ a o ne.
              rw (==_ne a p (subst (λ x. is_present x ≡ true → a ≢ frame_of x) is ne mapped)) o;
          less = λ a o. ground arith;
        },
      )

pub unmap_all :
    (start : ℕ) (owned : ℕ → Bool) (m : Memory) (free : List ℕ) (pd va : ℕ)
    → IsMapped start owned m free pd
    → va < 2 ^ 32
    → (is_present (pte_at m.words pd va) ≡ true
        → IsPrivate owned m.words pd (frame_of (pte_at m.words pd va)))
    → UnmapsTo start owned m pd va (unmap pd va m)
unfolding unmap
unmap_all start owned m free pd va ok small private =
    elim (Bool-cases (is_present (pte_at m.words pd va))) [
      | inr absent ↦ (
        m,
        owned,
        free,
        unmap-absent m pd va absent,
        record {
          mapped = ok;
          freed = λ e. absurd (ground arith);
          gone = absent;
          others = λ vb h ne. refl;
          roots = λ i h. refl;
          keeps = λ a o ne. o;
          less = λ a o. o;
        },
      )
      | inl mapped ↦ elim (Bool-cases (is_present (m.words (entry pd (pd_index va))))) [
        | inr e ↦
            absurd (let f : is_present (pte_at m.words pd va) ≡ false = rw e refl in ground arith)
        | inl there ↦
            let is : pte_at m.words pd va ≡ pte start owned m free pd va ok small there =
              rw there refl in
            unmap-present start owned m free pd va ok small there
              (subst (λ x. is_present x ≡ true) is mapped)
              (subst (λ x. IsPrivate owned m.words pd (frame_of x)) is (private mapped))
      ]
    ]

-- `unmap` in a page directory whose tables are owned frames, each for itself, and whose memory is
-- valid: where `va` is mapped, to an owned frame that is neither the directory nor a table, the frame
-- is given back. In each case there is no panic, nothing is at the page of `va` any more, each other
-- page is where it was, and the memory and the directory remain as they are to be.
pub unmap_lem :
    (start : ℕ) (owned : ℕ → Bool) (m : Memory) (free : List ℕ) (pd va : ℕ)
    → IsMapped start owned m free pd
    → va < 2 ^ 32
    → (is_present (pte_at m.words pd va) ≡ true
        → IsPrivate owned m.words pd (frame_of (pte_at m.words pd va)))
    → Unmapped start owned m free pd va (unmap pd va m)
unmap_lem start owned m free pd va ok small private =
    let (m', owned', free', e, u) = unmap_all start owned m free pd va ok small private in
    (
      m',
      owned',
      free',
      e,
      u.mapped,
      u.freed,
      (λ vb same. translate-absent m'.words pd va vb same u.gone),
      λ vb h ne. translate-same m.words m'.words pd vb (u.others vb h ne),
    )
