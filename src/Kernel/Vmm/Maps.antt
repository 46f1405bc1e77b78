-- ===== src/Kernel/Vmm/Maps.antt =====
-- Mapping and unmapping a page.
use os_shell.Common.{
  ℕ, ◌+◌, ◌/◌, ◌%◌, ◌^◌, ◌<◌, ◌≡◌, ◌≢◌, ◌⊎◌, inl, inr, refl, true, Bool, Option, none, some, List,
  [], arith, if◌then◌else◌, Bool-cases, ap, sym, ◌∙◌,
}
use os_shell.Kernel.PhysMem
use os_shell.Kernel.PhysMem.{Memory, offset, in_frame, store, alloc_frame, dealloc_frame}
use os_shell.Kernel.PhysMem.Valid.{own}
use os_shell.Kernel.PhysMem.Frames.{alloc_frame_lem}
use os_shell.Kernel.Vmm.{
  entry, frame_of, is_present, pd_index, pt_index, write, is_special, flagged, get_pde, map,
}
use os_shell.Kernel.Vmm.Tables.{Names, new-IsSpace, new-pte_at, store_other, store_self}
use os_shell.Kernel.Vmm.Walk.{IsSpace, IsSpace-same, entry_ne, pte_at, translate, write-IsValid}

-- An entry of a table is written.
module _ (owned : ℕ → Bool) (words : ℕ → ℕ) (pd va v : ℕ) (space : IsSpace owned words pd)
    (small : va < 2 ^ 32) (there : is_present (words (entry pd (pd_index va))) ≡ true) where
  abbrev table : ℕ
  table = frame_of (words (entry pd (pd_index va)))

  abbrev w3 : ℕ → ℕ
  w3 = store (entry table (pt_index va)) v words

  pub root_same : (i : ℕ) → i < 1024 → w3 (entry pd i) ≡ words (entry pd i)
  root_same i h =
      let ne = (space.tables (pd_index va) (omega arith) there).1 in
      store_other (entry table (pt_index va)) (entry pd i) v words
        (entry_ne pd table i (pt_index va) space.at (omega arith) (λ s. ne (sym s)) h (omega arith))

  pub written-IsSpace : IsSpace owned w3 pd
  written-IsSpace =
      IsSpace-same owned owned words w3 pd space root_same space.root
        (λ i h p. (space.tables i h p).0)

  pub written_here : pte_at w3 pd va ≡ v
  written_here =
      rw (root_same (pd_index va) (omega arith))
        (rw there (store_self (entry table (pt_index va)) v words))

  pub written_other :
      (vb : ℕ) → vb < 2 ^ 32 → vb / 4096 ≢ va / 4096 → pte_at w3 pd vb ≡ pte_at words pd vb
  written_other vb h ne =
      let j = pd_index vb in
      let hj : pd_index vb < 1024 = omega arith in
      rw (root_same j hj) (elim (Bool-cases (is_present (words (entry pd j)))) [
        | inr none_there ↦ rw none_there refl
        | inl p ↦ rw p (
            store_other (entry table (pt_index va))
              (entry (frame_of (words (entry pd j))) (pt_index vb)) v words
              (λ e.
                let same : frame_of (words (entry pd j)) ≡ table = omega arith in
                let index : pd_index vb ≡ pd_index va =
                  space.apart j (pd_index va) hj (omega arith) p there same in
                ne (omega arith)))
      ])

-- A page directory with its frames in a memory where the frames from `start` on are handed out.
pub record IsMapped (start : ℕ) (owned : ℕ → Bool) (m : Memory) (free : List ℕ) (pd : ℕ)
    : Type 0 where
  pub valid : PhysMem.Valid.IsValid start owned m free
  pub space : IsSpace owned m.words pd

pub translate-same :
    (w w' : ℕ → ℕ) (pd vb : ℕ)
    → pte_at w' pd vb ≡ pte_at w pd vb
    → translate w' pd vb ≡ translate w pd vb
translate-same w w' pd vb e =
    ap (λ x. if is_present x then some (frame_of x + vb % 4096) else none) e

module _ (io_apic local_apic : ℕ) where
  flagged-Names : (va p : ℕ) → offset p ≡ 0 → Names (flagged io_apic local_apic va p) p
  flagged-Names va p at = elim (Bool-cases (is_special io_apic local_apic va)) [
    | inl e ↦ record { present = rw e (ground arith); frame = rw e (omega arith) }
    | inr e ↦ record { present = rw e (ground arith); frame = rw e (omega arith) }
  ]

  -- No frame is left, or there is an entry for `va`, and all that was mapped still is.
  abbrev PdeFound : ℕ → (ℕ → Bool) → Memory → List ℕ → ℕ → ℕ → Option (ℕ × Memory) → Type 0
  PdeFound start owned m free pd va result =
      ((free ≡ []) × (m.avail ≡ m.limit) × (result ≡ none))
      ⊎ ((m' : Memory) × (owned' : ℕ → Bool) × (free' : List ℕ) × (result
            ≡ some (m'.words (entry pd (pd_index va)), m'))
          × IsMapped start owned' m' free' pd
          × (is_present (m'.words (entry pd (pd_index va))) ≡ true)
          × ((a : ℕ) → owned a ≡ true → owned' a ≡ true)
          × ((vb : ℕ) → vb < 2 ^ 32 → pte_at m'.words pd vb ≡ pte_at m.words pd vb))

  get_pde_lem :
      (start : ℕ) (owned : ℕ → Bool) (m : Memory) (free : List ℕ) (pd va : ℕ)
      → IsMapped start owned m free pd
      → va < 2 ^ 32
      → PdeFound start owned m free pd va (get_pde io_apic local_apic pd va m)
  unfolding get_pde
  get_pde_lem start owned m free pd va ok small =
      let k = pd_index va in
      elim (Bool-cases (is_present (m.words (entry pd k)))) [
        | inl there ↦ inr (m, owned, free, rw there refl, ok, there, (λ a h. h), λ vb h. refl)
        | inr absent ↦ elim (alloc_frame_lem start owned m free ok.valid) [
          | inl (no_free, no_rest, e) ↦ inl (no_free, no_rest, rw absent (rw e refl))
          | inr (p, m1, free', e, fresh, zeros, valid') ↦
              let at : offset p ≡ 0 = (valid'.owned_frames p (ground arith)).0 in
              let f = flagged io_apic local_apic va p in
              let names = flagged-Names va p at in
              let here : (write (entry pd k) f m1).words (entry pd k) ≡ f =
                store_self (entry pd k) f m1.words in
              let root' : own owned p pd ≡ true = let root = ok.space.root in ground arith in
              inr (
                write (entry pd k) f m1,
                own owned p,
                free',
                rw absent (rw e (rw here refl)),
                record {
                  valid =
                      write-IsValid start pd k f (own owned p) m1 free' valid' root' (omega arith);
                  space =
                      new-IsSpace pd p k f m.words m1.words zeros names at (omega arith) owned
                        ok.space fresh absent;
                },
                rw here names.present,
                (λ a h. ground arith),
                λ vb h.
                    new-pte_at pd p k f m.words m1.words zeros names at (omega arith) owned ok.space
                      fresh absent vb h,
              )
        ]
      ]

  -- What `map` comes to: no frame is left for a table, or the page of `va` is at `pa`, and each other
  -- page is where it was.
  abbrev pub Mapped : ℕ → (ℕ → Bool) → Memory → List ℕ → ℕ → ℕ → ℕ → Option Memory → Type 0
  Mapped start owned m free pd va pa result =
      ((free ≡ []) × (m.avail ≡ m.limit) × (result ≡ none))
      ⊎ ((m' : Memory) × (owned' : ℕ → Bool) × (free' : List ℕ) × (result ≡ some m')
          × IsMapped start owned' m' free' pd
          × ((a : ℕ) → owned a ≡ true → owned' a ≡ true)
          × ((vb : ℕ) → vb / 4096 ≡ va / 4096 → translate m'.words pd vb ≡ some (pa + vb % 4096))
          × ((vb : ℕ)
              → vb < 2 ^ 32
              → vb / 4096 ≢ va / 4096
              → translate m'.words pd vb ≡ translate m.words pd vb))

  pub map_lem :
      (start : ℕ) (owned : ℕ → Bool) (m : Memory) (free : List ℕ) (pd va pa : ℕ)
      → IsMapped start owned m free pd
      → va < 2 ^ 32
      → offset pa ≡ 0
      → Mapped start owned m free pd va pa (map io_apic local_apic pd va pa m)
  unfolding map
  map_lem start owned m free pd va pa ok small at =
      let v = flagged io_apic local_apic va pa in
      let names = flagged-Names va pa at in
      let i = pt_index va in
      elim (get_pde_lem start owned m free pd va ok small) [
        | inl (no_free, no_rest, e) ↦ inl (no_free, no_rest, rw e refl)
        | inr (m1, owned1, free1, e, ok1, there, more, kept) ↦
            let t = frame_of (m1.words (entry pd (pd_index va))) in
            let o = (ok1.space.tables (pd_index va) (omega arith) there).0 in
            inr (
              write (entry t i) v m1,
              owned1,
              free1,
              rw e refl,
              record {
                valid = write-IsValid start t i v owned1 m1 free1 ok1.valid o (omega arith);
                space = written-IsSpace owned1 m1.words pd va v ok1.space small there;
              },
              more,
              (λ vb same.
                  let i0 : pd_index vb ≡ pd_index va = omega arith in
                  let i1 : pt_index vb ≡ pt_index va = omega arith in
                  rw (i0, i1)
                    (rw (written_here owned1 m1.words pd va v ok1.space small there)
                      (rw (names.present, names.frame) refl))),
              λ vb h ne.
                  translate-same m.words (store (entry t i) v m1.words) pd vb (
                    written_other owned1 m1.words pd va v ok1.space small there vb h ne
                    ∙ kept vb h),
            )
      ]
