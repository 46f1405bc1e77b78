-- ===== src/Kernel/Vmm/Empties.antt =====
-- A page table that maps nothing is given back.
use os_shell.Common.{
  ℕ, ◌^◌, ◌<◌, ◌≡◌, ◌≢◌, inl, inr, refl, true, false, Bool, ◌==◌, ==_ne, none, some, List, ◌∷◌,
  arith, Bool-cases, ap, sym, ◌∙◌, subst,
}
use os_shell.Kernel.PhysMem.{Memory, dealloc_frame}
use os_shell.Kernel.PhysMem.Valid.{disown}
use os_shell.Kernel.PhysMem.Frames.{dealloc_frame_lem}
use os_shell.Kernel.Vmm.{entry, frame_of, is_present, pd_index, pt_index, write}
use os_shell.Kernel.Vmm.Clears.{Clears, frame_at-gone, frame_at-same}
use os_shell.Kernel.Vmm.Maps.{IsMapped}
use os_shell.Kernel.Vmm.Pages.{frame_at, HasPages}
use os_shell.Kernel.Vmm.Tables.{store_other, store_self}
use os_shell.Kernel.Vmm.Freed.{IsPrivate, root_kept, freed-IsSpace, freed-pte_at}
use os_shell.Kernel.Vmm.Walk.{IsSpace, entry_ne, write-IsValid}

module _ (io_apic local_apic start pd : ℕ) (owned : ℕ → Bool) (m : Memory) (free : List ℕ) (i : ℕ)
    (ok : IsMapped start owned m free pd) (pages : HasPages io_apic local_apic owned m.words pd)
    (small : i < 1024) (there : is_present (m.words (entry pd i)) ≡ true)
    (empty : (vb : ℕ) → vb < 2 ^ 32 → pd_index vb ≡ i → frame_at m.words pd vb ≡ none) where
  abbrev pt : ℕ
  pt = frame_of (m.words (entry pd i))

  -- The memory without the entry.
  abbrev m1 : Memory
  m1 = write (entry pd i) 0 m

  without : m1.words (entry pd i) ≡ 0
  without = store_self (entry pd i) 0 m.words

  others_same : (j : ℕ) → j ≢ i → m1.words (entry pd j) ≡ m.words (entry pd j)
  others_same j ne = store_other (entry pd i) (entry pd j) 0 m.words (λ e. ne (omega arith))

  -- An entry that is still present is another one.
  still_other :
      (j : ℕ)
      → is_present (m1.words (entry pd j)) ≡ true
      → (j ≢ i) × (is_present (m.words (entry pd j)) ≡ true)
  still_other j p = elim (Bool-cases (j == i)) [
    | inl e ↦
        let j_is : j ≡ i = ground arith in
        let z : is_present (m1.words (entry pd j)) ≡ false =
          ap is_present (ap (λ k. m1.words (entry pd k)) j_is ∙ without) in
        absurd (ground arith)
    | inr e ↦
        let ne : j ≢ i = ground arith in (ne, subst (λ x. is_present x ≡ true) (others_same j ne) p)
  ]

  m1-IsSpace : IsSpace owned m1.words pd
  m1-IsSpace = record {
    root = ok.space.root;
    at = ok.space.at;
    tables =
        λ j h p. let (ne, q) = still_other j p in rw (others_same j ne) (ok.space.tables j h q);
    apart = λ j k hj hk pj pk e.
        let (nj, qj) = still_other j pj in
        let (nk, qk) = still_other k pk in
        ok.space.apart j k hj hk qj qk
          (ap frame_of (sym (others_same j nj)) ∙ e ∙ ap frame_of (others_same k nk));
  }

  pt-IsPrivate : IsPrivate owned m1.words pd pt
  pt-IsPrivate = (
    (ok.space.tables i small there).0,
    (ok.space.tables i small there).1,
    λ j h p e.
        let (ne, q) = still_other j p in
        ne (ok.space.apart j i h small q there (ap frame_of (sym (others_same j ne)) ∙ e)),
  )

  without-frame_at : (vb : ℕ) → vb < 2 ^ 32 → frame_at m1.words pd vb ≡ frame_at m.words pd vb
  without-frame_at vb h = elim (Bool-cases (pd_index vb == i)) [
    | inl e ↦
        let at_i : pd_index vb ≡ i = ground arith in
        let z : m1.words (entry pd (pd_index vb)) ≡ 0 =
          ap (λ k. m1.words (entry pd k)) at_i ∙ without in
        frame_at-gone m1.words pd vb (rw z refl) ∙ sym (empty vb h at_i)
    | inr e ↦
        let j = pd_index vb in
        let hj : pd_index vb < 1024 = omega arith in
        frame_at-same m.words m1.words pd vb vb (
          rw (others_same j (ground arith)) (elim (Bool-cases (is_present (m.words (entry pd j)))) [
            | inr none_there ↦ rw none_there refl
            | inl p ↦ rw p (
                store_other (entry pd i) (entry (frame_of (m.words (entry pd j))) (pt_index vb)) 0
                  m.words
                  (entry_ne (frame_of (m.words (entry pd j))) pd (pt_index vb) i (omega arith)
                    ok.space.at (ok.space.tables j hj p).1 (omega arith) small))
          ]))
  ]

  -- `pd[pdi] = 0; dealloc_frame(pt)`
  pub empty-Clears :
      (m2 : Memory) × (dealloc_frame pt m1 ≡ some m2)
      × Clears io_apic local_apic start pd (λ va. false) owned m (disown owned pt) m2 (pt ∷ free)
  empty-Clears =
      let valid1 = write-IsValid start pd i 0 owned m free ok.valid ok.space.root small in
      let (m2, e2, words2, valid2) =
        dealloc_frame_lem start owned pt m1 free valid1 pt-IsPrivate.0 in
      let kept =
        root_kept owned m1.words m2.words pd pt m1.first_free m1-IsSpace pt-IsPrivate (omega arith)
          words2 in
      let same : (vb : ℕ) → vb < 2 ^ 32 → frame_at m2.words pd vb ≡ frame_at m.words pd vb = λ vb h.
        frame_at-same m1.words m2.words pd vb vb (
          freed-pte_at owned m1.words m2.words pd pt m1.first_free m1-IsSpace pt-IsPrivate
            (omega arith) words2 vb h)
        ∙ without-frame_at vb h in
      (
        m2,
        e2,
        record {
          mapped = record {
            valid = valid2;
            space =
                freed-IsSpace owned m1.words m2.words pd pt m1.first_free m1-IsSpace pt-IsPrivate
                  (omega arith) words2;
          };
          pages = record {
            private = λ vb p h user e.
                let (o, ne, tables) = pages.private vb p h user (sym (same vb h) ∙ e) in
                (
                  rw (==_ne p pt (λ s. tables i small there (sym s))) o,
                  ne,
                  λ j hj pj f.
                      let pj1 = subst (λ x. is_present x ≡ true) (kept j hj) pj in
                      let (nj, q) = still_other j pj1 in
                      tables j hj q (ap frame_of (sym (kept j hj ∙ others_same j nj)) ∙ f),
                );
            distinct = λ vb vc p hb hc ub uc eb ec.
                pages.distinct vb vc p hb hc ub uc (sym (same vb hb) ∙ eb) (sym (same vc hc) ∙ ec);
          };
          gone = λ vb h c. absurd (ground arith);
          freed = λ vb p h c e. absurd (ground arith);
          others = λ vb h c. same vb h;
          less = λ a o. ground arith;
        },
      )
