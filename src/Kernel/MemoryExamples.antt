-- ===== src/Kernel/MemoryExamples.antt =====
-- The theorems on page tables at a small memory: a page directory at 4096, a table at 8192, and a page
-- of user space at 12288.
use os_shell.Common.{
  ℕ, ◌^◌, ◌<◌, ◌≡◌, inl, inr, refl, true, false, Bool, ◌||◌, [], arith, ◌==◌, if◌then◌else◌,
  Bool-cases,
}
use os_shell.Kernel.PhysMem
use os_shell.Kernel.PhysMem.{Memory}
use os_shell.Kernel.Vmm.{global_init}
use os_shell.Kernel.Vmm.Identity.{Shares, global_init_lem}
use os_shell.Kernel.Vmm.{entry, frame_of, is_present, unmap}
use os_shell.Kernel.Vmm.Maps.{IsMapped}
use os_shell.Kernel.Vmm.Freed.{IsPrivate, Unmapped}
use os_shell.Kernel.Vmm.Unmaps.{unmap_lem}
use os_shell.Kernel.Vmm.Walk.{IsSpace, pte_at}

abbrev small_words : ℕ → ℕ
small_words a = if a == 6144 then 8199 else if a == 8192 then 12295 else 0

abbrev small_memory : Memory
small_memory = record { words = small_words; first_free = 0; avail = 16384; limit = 65536 }

abbrev three_frames : ℕ → Bool
three_frames a = a == 4096 || a == 8192 || a == 12288

one_entry : (i : ℕ) → i < 1024 → is_present (small_words (entry 4096 i)) ≡ true → i ≡ 512
one_entry i h there = elim (Bool-cases (entry 4096 i == 6144)) [
  | inl e ↦ ground arith
  | inr e ↦
      let other : (entry 4096 i == 8192) ≡ false = ground arith in
      absurd (
        let f : is_present (small_words (entry 4096 i)) ≡ false = rw (e, other) refl in
        ground arith)
]

small-IsSpace : IsSpace three_frames small_words 4096
small-IsSpace = record {
  root = refl;
  at = refl;
  tables = λ i h there. let e = one_entry i h there in rw e (refl, λ s. absurd (omega arith));
  apart =
      λ i j hi hj pi pj e. let a = one_entry i hi pi in let b = one_entry j hj pj in omega arith;
}

small-IsValid : PhysMem.Valid.IsValid 4096 three_frames small_memory []
small-IsValid = record {
  chain = refl;
  free_frames = tt;
  owned_frames = λ a h. ground arith;
  above_null = omega arith;
  start_in = omega arith;
  start_at = refl;
  avail_at = refl;
  limit_at = refl;
  avail_in = omega arith;
  limit_in = omega arith;
}

small-IsMapped : IsMapped 4096 three_frames small_memory [] 4096
small-IsMapped = record { valid = small-IsValid; space = small-IsSpace }

-- A memory of two pages, of which the second is mapped.
global_init_lem_example :
    Shares 0xFEC00000 0xFEE00000 4096 8192 1 three_frames small_memory []
      (global_init 0xFEC00000 0xFEE00000 8192 small_memory)
global_init_lem_example =
    global_init_lem 0xFEC00000 0xFEE00000 4096 three_frames small_memory [] 8192 small-IsValid
      (omega arith)

page-IsPrivate :
    is_present (pte_at small_words 4096 (2 ^ 31)) ≡ true
    → IsPrivate three_frames small_words 4096 (frame_of (pte_at small_words 4096 (2 ^ 31)))
page-IsPrivate e = (
  refl,
  (λ s. absurd (omega arith)),
  λ i h there. let f = one_entry i h there in rw f (λ s. absurd (omega arith)),
)

unmap_lem_example :
    Unmapped 4096 three_frames small_memory [] 4096 (2 ^ 31) (unmap 4096 (2 ^ 31) small_memory)
unmap_lem_example =
    unmap_lem 4096 three_frames small_memory [] 4096 (2 ^ 31) small-IsMapped (omega arith)
      page-IsPrivate
