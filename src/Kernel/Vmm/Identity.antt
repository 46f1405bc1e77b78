-- ===== src/Kernel/Vmm/Identity.antt =====
-- The directory that all processes share maps the memory to itself.
use os_shell.Common.{
  ℕ, zero, suc, ◌+◌, ◌-◌, ◌*◌, ◌/◌, ◌^◌, ◌<◌, ◌≤◌, ◌≡◌, ◌≢◌, ◌⊎◌, inl, inr, refl, true, false, Bool,
  Option, none, some, List, arith, ap, ◌∙◌, ltb, ltb→lt, ltb→le, Bool-cases, if◌then◌else◌, ==_refl,
}
use os_shell.Kernel.PhysMem
use os_shell.Kernel.PhysMem.{Memory, offset, in_frame, alloc_frame, frame_size}
use os_shell.Kernel.PhysMem.Valid
use os_shell.Kernel.PhysMem.Valid.{own}
use os_shell.Kernel.PhysMem.Frames.{alloc_frame_lem}
use os_shell.Kernel.Vmm.{entry, is_present, map_identity, global_init, pd_index}
use os_shell.Kernel.Vmm.Faults.{NoFrame}
use os_shell.Kernel.Vmm.Maps.{IsMapped, map_lem}
use os_shell.Kernel.Vmm.Walk.{translate, entry-in_frame}

module _ (io_apic local_apic start : ℕ) where
  -- Some rounds before the last leave no frame.
  abbrev pub RunsOut : ℕ → ℕ → ℕ → Memory → Type 0
  RunsOut n pd va m =
      (k : ℕ) × (m' : Memory) × (owned' : ℕ → Bool) × (free' : List ℕ) × (k < n)
      × (map_identity io_apic local_apic k pd va m ≡ some m')
      × PhysMem.Valid.IsValid start owned' m' free'
      × NoFrame free' m'

  -- The pages from `va` on up to `n` of them lead to themselves, and the others where they led.
  abbrev Identity : ℕ → ℕ → ℕ → Memory → Option Memory → Type 0
  Identity n pd va m result =
      ((result ≡ none) × RunsOut n pd va m)
      ⊎ ((m' : Memory) × (owned' : ℕ → Bool) × (free' : List ℕ) × (result ≡ some m')
          × IsMapped start owned' m' free' pd
          × ((vb : ℕ) → va ≤ vb → vb < va + n * 4096 → translate m'.words pd vb ≡ some vb)
          × ((vb : ℕ)
              → vb < 2 ^ 32
              → (vb < va) ⊎ (va + n * 4096 ≤ vb)
              → translate m'.words pd vb ≡ translate m.words pd vb))

  map_identity_lem :
      (n va : ℕ) (owned : ℕ → Bool) (m : Memory) (free : List ℕ) (pd : ℕ)
      → IsMapped start owned m free pd
      → offset va ≡ 0
      → va + n * 4096 ≤ 2 ^ 32
      → Identity n pd va m (map_identity io_apic local_apic n pd va m)
  unfolding map_identity
  map_identity_lem zero va owned m free pd ok at fits =
      inr (m, owned, free, refl, ok, (λ vb l u. absurd (omega arith)), λ vb h far. refl)
  map_identity_lem (suc n) va owned m free pd ok at fits =
      elim (map_lem io_apic local_apic start owned m free pd va va ok (omega arith) at) [
        | inl (no_free, no_rest, e) ↦
            inl (rw e refl, (0, m, owned, free, omega arith, refl, ok.valid, (no_free, no_rest)))
        | inr (m1, owned1, free1, e, ok1, more, here, others) ↦
            elim (map_identity_lem n (va + 4096) owned1 m1 free1 pd ok1 (omega arith)
              (omega arith)) [
                | inl (f, (k, m2, owned2, free2, less, g, sound, out)) ↦
                    inl (rw e f, (suc k, m2, owned2, free2, omega arith, rw e g, sound, out))
                | inr (m2, owned2, free2, f, ok2, inside, outside) ↦ inr (
                  m2,
                  owned2,
                  free2,
                  rw e f,
                  ok2,
                  (λ vb l u. elim (Bool-cases (ltb vb (va + 4096))) [
                    | inl first ↦
                        let near = ltb→lt vb (va + 4096) first in
                        outside vb (omega arith) (inl near)
                        ∙ here vb (omega arith)
                        ∙ ap some (omega arith)
                    | inr later ↦ inside vb (ltb→le vb (va + 4096) later) (omega arith)
                  ]),
                  λ vb h far.
                      outside vb h
                        (elim far [ inl low ↦ inl (omega arith) | inr high ↦ inr (omega arith) ])
                      ∙ others vb h (elim far [
                        | inl low ↦ (λ s. omega arith)
                        | inr high ↦ (λ s. omega arith)
                      ]),
                )
              ]
      ]

  -- A directory that was cleared has no tables.
  cleared_entry :
      (p i : ℕ) (m m1 : Memory)
      → ((a : ℕ) → m1.words a ≡ (if in_frame p a then 0 else m.words a))
      → i < 1024
      → m1.words (entry p i) ≡ 0
  cleared_entry p i m m1 zeros h = zeros (entry p i) ∙ rw (entry-in_frame p i h) refl

  cleared-IsMapped :
      (p : ℕ) (owned : ℕ → Bool) (m m1 : Memory) (free : List ℕ)
      → PhysMem.Valid.IsValid start (own owned p) m1 free
      → ((a : ℕ) → m1.words a ≡ (if in_frame p a then 0 else m.words a))
      → IsMapped start (own owned p) m1 free p
        × ((vb : ℕ) → vb < 2 ^ 32 → translate m1.words p vb ≡ none)
  cleared-IsMapped p owned m m1 free ok zeros =
      let mine : own owned p p ≡ true = rw (==_refl p) refl in
      let empty : (i : ℕ) → i < 1024 → is_present (m1.words (entry p i)) ≢ true =
        λ i h e. absurd (ground (arith, e, cleared_entry p i m m1 zeros h)) in
      (
        record {
          valid = ok;
          space = record {
            root = mine;
            at = (ok.owned_frames p mine).0;
            tables = λ i h e. absurd (empty i h e);
            apart = λ i j hi hj e f g. absurd (empty i hi e);
          };
        },
        λ vb h. rw (cleared_entry p (pd_index vb) m m1 zeros (omega arith)) refl,
      )

  -- What global_init comes to: no frame is left for the directory or for a table, or the pages from
  -- the first on that begin below the end of the memory lead to themselves, and no other leads
  -- anywhere.
  abbrev pub Shares : ℕ → ℕ → (ℕ → Bool) → Memory → List ℕ → Option (ℕ × Memory) → Type 0
  Shares mem_size n owned m free result =
      ((result ≡ none)
        × (NoFrame free m
            ⊎ ((p : ℕ) × (m1 : Memory) × (alloc_frame m ≡ some (p, m1))
                × RunsOut n p frame_size m1)))
      ⊎ ((pd : ℕ) × (m' : Memory) × (owned' : ℕ → Bool) × (free' : List ℕ) × (result
            ≡ some (pd, m'))
          × (owned pd ≡ false)
          × IsMapped start owned' m' free' pd
          × ((vb : ℕ)
              → 4096 ≤ vb
              → vb / 4096 * 4096 < mem_size
              → translate m'.words pd vb ≡ some vb)
          × ((vb : ℕ)
              → vb < 2 ^ 32
              → (vb < 4096) ⊎ (mem_size ≤ vb / 4096 * 4096)
              → translate m'.words pd vb ≡ none))

  -- global_init in a valid memory, with a size that leaves a page below 2 ^ 32: it panics only when
  -- no frame is left for the directory or for a table. Otherwise the directory is a new frame, every
  -- address of a page that begins below the end of the memory leads to itself, but for those of the
  -- first page, so that the null pointer faults, and no other address leads anywhere.
  pub global_init_lem :
      (owned : ℕ → Bool) (m : Memory) (free : List ℕ) (mem_size : ℕ)
      → PhysMem.Valid.IsValid start owned m free
      → mem_size + 4096 ≤ 2 ^ 32
      → Shares mem_size
          ((mem_size - 1) / 4096)
          owned
          m
          free
          (global_init io_apic local_apic mem_size m)
  unfolding global_init
  global_init_lem owned m free mem_size ok fits = elim (alloc_frame_lem start owned m free ok) [
    | inl (no_free, no_rest, e) ↦ inl (rw e refl, inl (no_free, no_rest))
    | inr (p, m1, free1, e, fresh, zeros, ok1) ↦
        let (mapped, nowhere) = cleared-IsMapped p owned m m1 free1 ok1 zeros in
        elim (map_identity_lem ((mem_size - 1) / 4096) 4096 (own owned p) m1 free1 p mapped refl
          (omega arith)) [
            | inl (f, out) ↦ inl (rw e (rw f refl), inr (p, m1, e, out))
            | inr (m2, owned2, free2, f, ok2, inside, outside) ↦ inr (
              p,
              m2,
              owned2,
              free2,
              rw e (rw f refl),
              fresh,
              ok2,
              (λ vb l u. inside vb l (omega arith)),
              λ vb h far.
                  outside vb h (elim (Bool-cases (ltb vb 4096)) [
                    | inl low ↦ inl (ltb→lt vb 4096 low)
                    | inr high ↦ inr (
                        let above = ltb→le vb 4096 high in
                        elim far [ inl low ↦ absurd (omega arith) | inr beyond ↦ omega arith ])
                  ])
                  ∙ nowhere vb h,
            )
          ]
  ]
