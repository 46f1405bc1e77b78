-- ===== src/Kernel/Vmm/Private.antt =====
-- What is left of an address space when its private part is deleted.
use os_shell.Common.{
  ℕ, ◌*◌, ◌/◌, ◌^◌, ◌<◌, ◌≡◌, true, false, Bool, ◌&&◌, leb, ◌==◌, Option, none, some, List,
}
use os_shell.Kernel.PhysMem.{Memory}
use os_shell.Kernel.Vmm.{is_special, pd_index}
use os_shell.Kernel.Vmm.Clears.{Clears}
use os_shell.Kernel.Vmm.Deletes.{Stands, is_user}
use os_shell.Kernel.Vmm.Maps.{IsMapped}
use os_shell.Kernel.Vmm.Pages.{frame_at, IsUser}
use os_shell.Kernel.Vmm.Walk.{translate}

module _ (io_apic local_apic start pd : ℕ) where
  abbrev of_table : ℕ → ℕ → Bool
  of_table pdi va = is_user io_apic local_apic start pd va && pd_index va == pdi

  abbrev of_tables : ℕ → ℕ → Bool
  of_tables pdi va = is_user io_apic local_apic start pd va && leb pdi (pd_index va)

  abbrev Result : (ℕ → Bool) → Memory → (ℕ → Bool) → Option Memory → Type 0
  Result owned m cleared result =
      (m' : Memory) × (owned' : ℕ → Bool) × (free' : List ℕ) × (result ≡ some m')
      × Clears io_apic local_apic start pd cleared owned m owned' m' free'

  abbrev Standing : (ℕ → Bool) → Memory → List ℕ → Type 0
  Standing = Stands io_apic local_apic start pd

  -- What `delete_private` leaves.
  abbrev pub Deletes : (ℕ → Bool) → Memory → Option Memory → Type 0
  Deletes owned m result =
      (m' : Memory) × (owned' : ℕ → Bool) × (free' : List ℕ) × (result ≡ some m')
      × IsMapped start owned' m' free' pd
      × ((va : ℕ) → va < 2 ^ 32 → IsUser io_apic local_apic va → translate m'.words pd va ≡ none)
      × ((va : ℕ)
          → va < 2 ^ 32
          → is_special io_apic local_apic (va / 4096 * 4096) ≡ true
          → translate m'.words pd va ≡ translate m.words pd va)
      × ((va p : ℕ)
          → va < 2 ^ 32
          → IsUser io_apic local_apic va
          → frame_at m.words pd va ≡ some p
          → owned' p ≡ false)
      × ((a : ℕ) → owned a ≡ false → owned' a ≡ false)
