-- ===== src/Kernel/Vmm.antt =====
-- Page tables: kernel/vmm.cc, over Kernel.PhysMem. A page directory and a page table are the frames at
-- their addresses. `invlpg` has no effect on the memory.
pub mod Walk
pub mod Tables
pub mod Maps
pub mod Faults
pub mod Freed
pub mod Unmaps
pub mod Pages
pub mod Clears
pub mod Empties
pub mod Deletes
pub mod Private
pub mod Identity
use os_shell.Common.{
  ℕ, zero, suc, ◌+◌, ◌-◌, ◌*◌, ◌/◌, ◌%◌, ◌^◌, Bool, ◌||◌, not, Option, none, some, ltb, ◌==◌,
  if◌then◌else◌, true, false, ◌>>=◌,
}
use os_shell.Kernel.PhysMem.{Memory, frame_size, alloc_frame, dealloc_frame, store}

-- `va >> 22`, `(va >> 12) & 0x3FF`, `e & 1`, `e & 0xFFFFF000`, `e | 3` and `e | 7`
abbrev pub pd_index : ℕ → ℕ
pd_index va = va / 2 ^ 22

abbrev pub pt_index : ℕ → ℕ
pt_index va = va / 2 ^ 12 % 1024

abbrev pub is_present : ℕ → Bool
is_present e = e % 2 == 1

abbrev pub frame_of : ℕ → ℕ
frame_of e = e / 4096 * 4096

abbrev pub or_3 : ℕ → ℕ
or_3 e = e / 4 * 4 + 3

abbrev pub or_7 : ℕ → ℕ
or_7 e = e / 8 * 8 + 7

-- The word of an entry.
abbrev pub entry : ℕ → ℕ → ℕ
entry table i = table + 4 * i

abbrev pub write : ℕ → ℕ → Memory → Memory
write a v m = record m { words = store a v m.words }

-- `kConfig.ioAPIC` and `kConfig.localAPIC`
module _ (io_apic local_apic : ℕ) where
  abbrev pub is_special : ℕ → Bool
  is_special va = ltb va 0x80000000 || va == io_apic || va == local_apic

  abbrev pub flagged : ℕ → ℕ → ℕ
  flagged va pa = if is_special va then or_3 pa else or_7 pa

  -- The entry of the page directory for an address, made where there is none.
  unfoldable pub get_pde : ℕ → ℕ → Memory → Option (ℕ × Memory)
  get_pde pd va m =
      let a = entry pd (pd_index va) in
      if is_present (m.words a)
      then some (m.words a, m)
      else (do (p, m') ← alloc_frame m; some (flagged va p, write a (flagged va p) m'))

  unfoldable pub map : ℕ → ℕ → ℕ → Memory → Option Memory
  unfolding get_pde
  map pd va pa m = do
    (pde, m') ← get_pde pd va m
    some (write (entry (frame_of pde) (pt_index va)) (flagged va pa) m')

  -- The part of the page fault handler that finds a frame; `none` outside is a panic, and inside it
  -- the exit of the process.
  unfoldable pub page_fault : ℕ → ℕ → Memory → Option (Option Memory)
  page_fault pd va m =
      let page = va / frame_size * frame_size in
      if ltb page 0x80000000
      then some none
      else (do (pa, m') ← alloc_frame m; m'' ← map pd page pa m'; some (some m''))

  -- `n` rounds of the loop of global_init from `va` on.
  unfoldable pub map_identity : ℕ → ℕ → ℕ → Memory → Option Memory
  map_identity zero pd va m = some m
  map_identity (suc n) pd va m = do m' ← map pd va va m; map_identity n pd (va + frame_size) m'

  -- The directory `shared`, and how many multiples of the frame size there are from the first on that
  -- are less than kConfig.memSize.
  unfoldable pub global_init : ℕ → Memory → Option (ℕ × Memory)
  global_init mem_size m = do
    (shared, m') ← alloc_frame m
    m'' ← map_identity ((mem_size - 1) / frame_size) shared frame_size m'
    some (shared, m'')

unfoldable pub unmap : ℕ → ℕ → Memory → Option Memory
unmap pd va m =
    let pde = m.words (entry pd (pd_index va)) in
    if not (is_present pde)
    then some m
    else (let a = entry (frame_of pde) (pt_index va) in
        let pte = m.words a in
        if not (is_present pte) then some m else dealloc_frame (frame_of pte) (write a 0 m))

module _ (io_apic local_apic : ℕ) where
  -- One entry of a table: `special` is `contains_special`.
  unfoldable pub delete_page : ℕ → ℕ → ℕ → Bool → Memory → Option (Bool × Memory)
  delete_page pdi pt pti special m =
      if is_special io_apic local_apic (pdi * 2 ^ 22 + pti * 2 ^ 12)
      then some (true, m)
      else (let pte = m.words (entry pt pti) in
          if not (is_present pte) then some (special, m) else (do
            m' ← dealloc_frame (frame_of pte) (write (entry pt pti) 0 m)
            some (special, m')))

  -- The `n` entries from `pti` on.
  unfoldable pub delete_pages : ℕ → ℕ → ℕ → ℕ → Bool → Memory → Option (Bool × Memory)
  unfolding delete_page
  delete_pages zero pdi pt pti special m = some (special, m)
  delete_pages (suc n) pdi pt pti special m = do
    (special', m') ← delete_page pdi pt pti special m
    delete_pages n pdi pt (pti + 1) special' m'

  unfoldable pub delete_table : ℕ → ℕ → Memory → Option Memory
  unfolding delete_pages
  delete_table pd pdi m =
      let pde = m.words (entry pd pdi) in
      if not (is_present pde) then some m else (do
        (special, m') ← delete_pages 1024 pdi (frame_of pde) 0 false m
        if not special then dealloc_frame (frame_of pde) (write (entry pd pdi) 0 m') else some m')

  -- The `n` entries of the directory from `pdi` on.
  unfoldable pub delete_tables : ℕ → ℕ → ℕ → Memory → Option Memory
  unfolding delete_table
  delete_tables zero pd pdi m = some m
  delete_tables (suc n) pd pdi m = do m' ← delete_table pd pdi m; delete_tables n pd (pdi + 1) m'

  unfoldable pub delete_private : ℕ → Memory → Option Memory
  unfolding delete_tables
  delete_private pd m = delete_tables 512 pd 512 m
