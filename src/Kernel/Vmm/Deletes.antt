-- ===== src/Kernel/Vmm/Deletes.antt =====
-- The private part of an address space is deleted.
use os_shell.Common.{
  ℕ, zero, suc, ◌+◌, ◌*◌, ◌/◌, ◌^◌, ◌<◌, ◌≤◌, ◌≡◌, inl, inr, refl, true, false, Bool, ◌&&◌, ◌||◌,
  not, leb, ◌==◌, Option, some, List, arith, Bool-cases, ap, sym, ◌∙◌, ◌>>=◌,
}
use os_shell.Kernel.PhysMem.{Memory}
use os_shell.Kernel.Vmm.{
  entry, frame_of, is_present, is_special, pd_index, pt_index, unmap, delete_page, delete_pages,
}
use os_shell.Kernel.Vmm.Clears.{Clears, both, named, no_step, unmapped-Clears}
use os_shell.Kernel.Vmm.Maps.{IsMapped}
use os_shell.Kernel.Vmm.Pages.{HasPages, IsUser}
use os_shell.Kernel.Vmm.Unmaps.{unmap_all}
use os_shell.Kernel.Vmm.Walk.{pte_at}

pub and_false : (u : Bool) → (u && false) ≡ false
and_false false = refl
and_false true = refl

-- The ranges of the loops, for addresses that pass a test `u`.
cell_and_rest :
    (u : Bool) (va pdi pti : ℕ)
    → va < 2 ^ 32
    → pti < 1024
    → (u && (pd_index va == pdi && leb pti (pt_index va))) ≡ (
        (u && va / 4096 == pdi * 1024 + pti)
        || (u && (pd_index va == pdi && leb (pti + 1) (pt_index va))))
cell_and_rest false va pdi pti h k = refl
cell_and_rest true va pdi pti h k = ground arith

no_cells : (u : Bool) (va pdi : ℕ) → (u && (pd_index va == pdi && leb 1024 (pt_index va))) ≡ false
no_cells false va pdi = refl
no_cells true va pdi = ground arith

pub all_cells :
    (u : Bool) (va pdi : ℕ)
    → (u && pd_index va == pdi) ≡ (u && (pd_index va == pdi && leb 0 (pt_index va)))
all_cells false va pdi = refl
all_cells true va pdi = ground arith

pub table_and_rest :
    (u : Bool) (va pdi : ℕ)
    → (u && leb pdi (pd_index va))
      ≡ ((u && pd_index va == pdi) || (u && leb (pdi + 1) (pd_index va)))
table_and_rest false va pdi = refl
table_and_rest true va pdi = ground arith

pub no_tables : (u : Bool) (va : ℕ) → va < 2 ^ 32 → (u && leb 1024 (pd_index va)) ≡ false
no_tables false va h = refl
no_tables true va h = ground arith

module _ (io_apic local_apic start pd : ℕ) where
  abbrev pub is_user : ℕ → Bool
  is_user va = not (is_special io_apic local_apic (va / 4096 * 4096))

  -- The state of a loop.
  pub record Stands (owned : ℕ → Bool) (m : Memory) (free : List ℕ) : Type 0 where
    pub mapped : IsMapped start owned m free pd
    pub pages : HasPages io_apic local_apic owned m.words pd

  abbrev pub Roots : Memory → Memory → Type 0
  Roots m m' = (i : ℕ) → i < 1024 → m'.words (entry pd i) ≡ m.words (entry pd i)

  delete_page-unmap :
      (pdi pti : ℕ) (special : Bool) (m : Memory)
      → pdi < 1024
      → pti < 1024
      → is_special io_apic local_apic (pdi * 2 ^ 22 + pti * 2 ^ 12) ≡ false
      → is_present (m.words (entry pd pdi)) ≡ true
      → delete_page io_apic local_apic pdi (frame_of (m.words (entry pd pdi))) pti special m
        ≡ (unmap pd (pdi * 2 ^ 22 + pti * 2 ^ 12) m >>= λ m'. some (special, m'))
  unfolding delete_page unmap
  delete_page-unmap pdi pti special m h k user there =
      let i0 : pd_index (pdi * 2 ^ 22 + pti * 2 ^ 12) ≡ pdi = omega arith in
      let i1 : pt_index (pdi * 2 ^ 22 + pti * 2 ^ 12) ≡ pti = omega arith in
      rw (delete_page, unmap, user)
        (rw (i0, i1)
          (rw there
            (elim (Bool-cases
              (is_present (m.words (entry (frame_of (m.words (entry pd pdi))) pti)))) [
                | inl e ↦ rw e refl
                | inr e ↦ rw e refl
              ])))

  abbrev cell : ℕ → ℕ → ℕ → Bool
  cell pdi pti va = is_user va && va / 4096 == pdi * 1024 + pti

  abbrev pub Deleted :
      ℕ → (ℕ → Bool) → Memory → Bool → (ℕ → Bool) → Type 0 → Option (Bool × Memory) → Type 0
  Deleted pdi owned m special cleared users result =
      (special' : Bool) × (m' : Memory) × (owned' : ℕ → Bool) × (free' : List ℕ) × (result
        ≡ some (special', m'))
      × Clears io_apic local_apic start pd cleared owned m owned' m' free'
      × Roots m m'
      × (special' ≡ false → (special ≡ false) × users)

  delete_page_lem :
      (pdi pti : ℕ) (special : Bool) (owned : ℕ → Bool) (m : Memory) (free : List ℕ)
      → Stands owned m free
      → pdi < 1024
      → pti < 1024
      → is_present (m.words (entry pd pdi)) ≡ true
      → Deleted pdi owned m special
          (cell pdi pti)
          (is_special io_apic local_apic (pdi * 2 ^ 22 + pti * 2 ^ 12) ≡ false)
          (delete_page io_apic local_apic pdi (frame_of (m.words (entry pd pdi))) pti special m)
  delete_page_lem pdi pti special owned m free ok h k there =
      let va = pdi * 2 ^ 22 + pti * 2 ^ 12 in
      let page : (vb : ℕ) → vb / 4096 ≡ pdi * 1024 + pti → vb / 4096 * 4096 ≡ va =
        λ vb e. omega arith in
      elim (Bool-cases (is_special io_apic local_apic va)) [
        | inl e ↦ (
          true,
          m,
          owned,
          free,
          unfold delete_page in (rw e refl),
          named io_apic local_apic start pd (λ vb. false) (cell pdi pti) owned m owned m free
              (λ vb hb. elim (Bool-cases (vb / 4096 == pdi * 1024 + pti)) [
                | inl same ↦
                    let s : vb / 4096 * 4096 ≡ va = page vb (ground arith) in rw (s, e) refl
                | inr other ↦ ground arith
              ])
              (no_step io_apic local_apic start pd owned m free ok.mapped ok.pages),
          (λ i hi. refl),
          λ f. absurd (ground arith),
        )
        | inr e ↦
            let small : va < 2 ^ 32 = omega arith in
            let own_page : va / 4096 * 4096 ≡ va = omega arith in
            let user : IsUser io_apic local_apic va = rw own_page e in
            let (m', owned', free', r, u) =
              unmap_all start owned m free pd va ok.mapped small (λ p.
                ok.pages.private va (frame_of (pte_at m.words pd va)) small user (rw p refl)) in
            (
              special,
              m',
              owned',
              free',
              delete_page-unmap pdi pti special m h k e there ∙ rw r refl,
              named io_apic local_apic start pd (λ vb. vb / 4096 == va / 4096) (cell pdi pti) owned
                  m owned' m' free'
                  (λ vb hb.
                    let v : va / 4096 ≡ pdi * 1024 + pti = omega arith in
                    rw v (elim (Bool-cases (vb / 4096 == pdi * 1024 + pti)) [
                      | inl same ↦
                          let s : vb / 4096 * 4096 ≡ va = page vb (ground arith) in
                          rw (same, s, e) refl
                      | inr other ↦ rw other (and_false (is_user vb))
                    ]))
                  (unmapped-Clears io_apic local_apic start pd owned m va m' owned' free' small user
                    ok.pages u),
              u.roots,
              λ f. (f, e),
            )
      ]

  abbrev pub cells : ℕ → ℕ → ℕ → Bool
  cells pdi pti va = is_user va && (pd_index va == pdi && leb pti (pt_index va))

  abbrev pub AllUser : ℕ → ℕ → Type 0
  AllUser pdi pti =
      (va : ℕ) → va < 2 ^ 32 → pd_index va ≡ pdi → pti ≤ pt_index va → IsUser io_apic local_apic va

  pub delete_pages_lem :
      (n pdi pti pt : ℕ) (special : Bool) (owned : ℕ → Bool) (m : Memory) (free : List ℕ)
      → Stands owned m free
      → pdi < 1024
      → pti + n ≡ 1024
      → pt ≡ frame_of (m.words (entry pd pdi))
      → is_present (m.words (entry pd pdi)) ≡ true
      → Deleted pdi owned m special
          (cells pdi pti)
          (AllUser pdi pti)
          (delete_pages io_apic local_apic n pdi pt pti special m)
  unfolding delete_pages
  delete_pages_lem zero pdi pti pt special owned m free ok h end at there = (
    special,
    m,
    owned,
    free,
    refl,
    named io_apic local_apic start pd (λ va. false) (cells pdi pti) owned m owned m free
        (λ va hv. let last : pti ≡ 1024 = omega arith in rw last (no_cells (is_user va) va pdi))
        (no_step io_apic local_apic start pd owned m free ok.mapped ok.pages),
    (λ i hi. refl),
    λ f. (f, λ va hv e le. absurd (omega arith)),
  )
  delete_pages_lem (suc n) pdi pti pt special owned m free ok h end at there =
      let (s1, m1, owned1, free1, e1, c1, r1, u1) =
        delete_page_lem pdi pti special owned m free ok h (omega arith) there in
      let (s2, m2, owned2, free2, e2, c2, r2, u2) =
        delete_pages_lem n pdi (pti + 1) pt s1 owned1 m1 free1
          (record { mapped = c1.mapped; pages = c1.pages }) h (omega arith)
          (at ∙ ap frame_of (sym (r1 pdi h))) (rw (r1 pdi h) there) in
      (
        s2,
        m2,
        owned2,
        free2,
        rw (ap (λ p. delete_page io_apic local_apic pdi p pti special m) at ∙ e1) e2,
        named io_apic local_apic start pd (λ va. cell pdi pti va || cells pdi (pti + 1) va)
            (cells pdi pti) owned m owned2 m2 free2
            (λ va hv. cell_and_rest (is_user va) va pdi pti hv (omega arith))
            (both io_apic local_apic start pd (cell pdi pti) (cells pdi (pti + 1)) owned m owned1 m1
              free1 owned2 m2 free2 c1 c2),
        (λ i hi. r2 i hi ∙ r1 i hi),
        λ f.
            let (f1, rest) = u2 f in
            let (f0, here) = u1 f1 in
            (
              f0,
              λ va hv e le. elim (Bool-cases (pt_index va == pti)) [
                | inl same ↦
                    let page : va / 4096 * 4096 ≡ pdi * 2 ^ 22 + pti * 2 ^ 12 = ground arith in
                    rw page here
                | inr other ↦ rest va hv e (ground arith)
              ],
            ),
      )
