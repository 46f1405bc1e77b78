-- ===== src/Kernel/Vmm/Faults.antt =====
-- A page fault in user space.
use os_shell.Common.{
  ℕ, ◌+◌, ◌/◌, ◌%◌, ◌^◌, ◌<◌, ◌≡◌, ◌≢◌, ◌⊎◌, false, Bool, Option, none, some, List, [],
}
use os_shell.Kernel.PhysMem
use os_shell.Kernel.PhysMem.{Memory, alloc_frame}
use os_shell.Kernel.PhysMem.Valid.{own}
use os_shell.Kernel.Vmm.Maps.{IsMapped}
use os_shell.Kernel.Vmm.Walk.{translate}

-- All frames have been handed out and none has been given back.
abbrev pub NoFrame : List ℕ → Memory → Type 0
NoFrame free m = (free ≡ []) × (m.avail ≡ m.limit)

module _ (io_apic local_apic : ℕ) where
  -- What a page fault at `va` comes to.
  abbrev pub Resolved : ℕ → (ℕ → Bool) → Memory → List ℕ → ℕ → ℕ → Option (Option Memory) → Type 0
  Resolved start owned m free pd va result =
      ((result ≡ none)
        × (NoFrame free m
            ⊎ ((p : ℕ) × (m1 : Memory) × (free1 : List ℕ) × (alloc_frame m ≡ some (p, m1))
                × PhysMem.Valid.IsValid start (own owned p) m1 free1
                × NoFrame free1 m1)))
      ⊎ ((pa : ℕ) × (m' : Memory) × (owned' : ℕ → Bool) × (free' : List ℕ) × (result
            ≡ some (some m'))
          × IsMapped start owned' m' free' pd
          × (owned pa ≡ false)
          × ((vb : ℕ) → vb / 4096 ≡ va / 4096 → translate m'.words pd vb ≡ some (pa + vb % 4096))
          × ((vb : ℕ)
              → vb < 2 ^ 32
              → vb / 4096 ≢ va / 4096
              → translate m'.words pd vb ≡ translate m.words pd vb))
