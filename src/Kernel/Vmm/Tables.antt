-- ===== src/Kernel/Vmm/Tables.antt =====
-- A new page table, in a frame of zeros.
use os_shell.Common.{
  ℕ, ◌^◌, ◌<◌, ◌≡◌, ◌≢◌, refl, true, false, Bool, arith, ◌==◌, ==_ne, ==_refl, if◌then◌else◌,
  Bool-cases, inl, inr, ap, sym, ◌∙◌, subst,
}
use os_shell.Kernel.PhysMem.{offset, in_frame, store}
use os_shell.Kernel.PhysMem.Valid.{own}
use os_shell.Kernel.Vmm.{entry, frame_of, is_present, pd_index, pt_index}
use os_shell.Kernel.Vmm.Walk.{IsSpace, pte_at, entry_ne, entry-in_frame}

pub entry-outside :
    (p t i : ℕ) → offset p ≡ 0 → offset t ≡ 0 → p ≢ t → i < 1024 → in_frame p (entry t i) ≡ false
entry-outside p t i hp ht ne h = ground arith

-- A word whose address is known.
pub store_self : (a v : ℕ) (w : ℕ → ℕ) → store a v w a ≡ v
store_self a v w = rw (==_refl a) refl

pub store_other : (a b v : ℕ) (w : ℕ → ℕ) → b ≢ a → store a v w b ≡ w b
store_other a b v w ne = rw (==_ne b a ne) refl

-- `e` names the frame `p`.
pub record Names (e p : ℕ) : Type 0 where
  pub present : is_present e ≡ true
  pub frame : frame_of e ≡ p

module _ (pd p k e : ℕ) (w w1 : ℕ → ℕ) (zeros : (a : ℕ) → w1 a ≡ (if in_frame p a then 0 else w a))
    (names : Names e p) (at : offset p ≡ 0) (small : k < 1024) where
  abbrev w2 : ℕ → ℕ
  w2 = store (entry pd k) e w1

  new_elsewhere :
      (t i : ℕ)
      → offset t ≡ 0
      → p ≢ t
      → i < 1024
      → entry t i ≢ entry pd k
      → w2 (entry t i) ≡ w (entry t i)
  new_elsewhere t i ht ne h other =
      store_other (entry pd k) (entry t i) e w1 other
      ∙ zeros (entry t i)
      ∙ rw (entry-outside p t i at ht ne h) refl

  module _ (owned : ℕ → Bool) (space : IsSpace owned w pd) (fresh : owned p ≡ false)
      (absent : is_present (w (entry pd k)) ≡ false) where
    root_ne : p ≢ pd
    root_ne same = let root = space.root in ground arith

    new_other : (i : ℕ) → i < 1024 → i ≢ k → w2 (entry pd i) ≡ w (entry pd i)
    new_other i h ne = new_elsewhere pd i space.at root_ne h (λ e'. ne (omega arith))

    new_here : w2 (entry pd k) ≡ e
    new_here = store_self (entry pd k) e w1

    -- The tables that there were are not the new one.
    old_ne : (i : ℕ) → i < 1024 → is_present (w (entry pd i)) ≡ true → frame_of (w (entry pd i)) ≢ p
    old_ne i h there same = let o = (space.tables i h there).0 in ground arith

    tables_lem :
        (i : ℕ)
        → i < 1024
        → is_present (w2 (entry pd i)) ≡ true
        → (own owned p (frame_of (w2 (entry pd i))) ≡ true) × (frame_of (w2 (entry pd i)) ≢ pd)
    tables_lem i h there = elim (Bool-cases (i == k)) [
      | inl same ↦
          let here : w2 (entry pd i) ≡ e =
            subst (λ j. w2 (entry pd j) ≡ e) (let s : k ≡ i = ground arith in s) new_here in
          let f = ap frame_of here ∙ names.frame in
          (rw f (rw (==_refl p) refl), λ b. root_ne (sym f ∙ b))
      | inr other ↦
          let at_i = new_other i h (ground arith) in
          let old = subst (λ x. is_present x ≡ true) at_i there in
          let (o, ne) = space.tables i h old in
          (
            rw at_i (rw (==_ne (frame_of (w (entry pd i))) p (old_ne i h old)) o),
            λ b. ne (ap frame_of (sym at_i) ∙ b),
          )
    ]

    apart_lem :
        (i j : ℕ)
        → i < 1024
        → j < 1024
        → is_present (w2 (entry pd i)) ≡ true
        → is_present (w2 (entry pd j)) ≡ true
        → frame_of (w2 (entry pd i)) ≡ frame_of (w2 (entry pd j))
        → i ≡ j
    apart_lem i j hi hj pi pj e' = elim (Bool-cases (i == k)) [
      | inl a ↦ elim (Bool-cases (j == k)) [
        | inl b ↦ ground arith
        | inr b ↦
            let si : k ≡ i = ground arith in
            let at_j = new_other j hj (ground arith) in
            absurd (
              old_ne j hj (subst (λ x. is_present x ≡ true) at_j pj) (
                ap frame_of (sym at_j)
                ∙ sym e'
                ∙ ap (λ n. frame_of (w2 (entry pd n))) (sym si)
                ∙ ap frame_of new_here
                ∙ names.frame))
      ]
      | inr a ↦
          let at_i = new_other i hi (ground arith) in
          let old_i = subst (λ x. is_present x ≡ true) at_i pi in
          elim (Bool-cases (j == k)) [
            | inl b ↦
                let sj : k ≡ j = ground arith in
                absurd (
                  old_ne i hi old_i (
                    ap frame_of (sym at_i)
                    ∙ e'
                    ∙ ap (λ n. frame_of (w2 (entry pd n))) (sym sj)
                    ∙ ap frame_of new_here
                    ∙ names.frame))
            | inr b ↦
                let at_j = new_other j hj (ground arith) in
                space.apart i j hi hj old_i (subst (λ x. is_present x ≡ true) at_j pj)
                  (ap frame_of (sym at_i) ∙ e' ∙ ap frame_of at_j)
          ]
    ]

    pub new-IsSpace : IsSpace (own owned p) w2 pd
    new-IsSpace = record {
      root = rw (==_ne pd p (λ s. root_ne (sym s))) space.root;
      at = space.at;
      tables = tables_lem;
      apart = apart_lem;
    }

    -- The new table is empty, and each of the others is as it was.
    pub new-pte_at : (vb : ℕ) → vb < 2 ^ 32 → pte_at w2 pd vb ≡ pte_at w pd vb
    new-pte_at vb h = elim (Bool-cases (pd_index vb == k)) [
      | inl same ↦
          let s : pd_index vb ≡ k = ground arith in
          let empty : w2 (entry p (pt_index vb)) ≡ 0 =
            store_other (entry pd k) (entry p (pt_index vb)) e w1
              (entry_ne p pd (pt_index vb) k at space.at root_ne (omega arith) small)
            ∙ zeros (entry p (pt_index vb))
            ∙ rw (entry-in_frame p (pt_index vb) (omega arith)) refl in
          rw s (rw (absent, new_here) (rw (names.present, names.frame) empty))
      | inr other ↦
          let i = pd_index vb in
          let small_i : pd_index vb < 1024 = omega arith in
          rw (new_other i small_i (ground arith)) (elim (Bool-cases (is_present (w (entry pd i)))) [
            | inr none_there ↦ rw none_there refl
            | inl there ↦
                let t = frame_of (w (entry pd i)) in
                let aligned : offset t ≡ 0 = omega arith in
                let (o, ne) = space.tables i small_i there in
                rw there (
                  new_elsewhere t (pt_index vb) aligned (λ s. old_ne i small_i there (sym s))
                    (omega arith)
                    (entry_ne t pd (pt_index vb) k aligned space.at ne (omega arith) small))
          ])
    ]
