-- ===== src/Kernel/Vmm/Pages.antt =====
-- The pages of user space, each with a frame of its own.
use os_shell.Common.{
  ℕ, ◌+◌, ◌*◌, ◌/◌, ◌%◌, ◌^◌, ◌<◌, ◌≡◌, inl, inr, refl, false, Bool, Option, none, some, arith,
  if◌then◌else◌, Bool-cases, ap,
}
use os_shell.Kernel.Vmm.{frame_of, is_present, is_special}
use os_shell.Kernel.Vmm.Freed.{IsPrivate}
use os_shell.Kernel.Vmm.Walk.{pte_at, translate}

-- The frame of a page.
abbrev pub frame_at : (ℕ → ℕ) → ℕ → ℕ → Option ℕ
frame_at words pd va =
    if is_present (pte_at words pd va) then some (frame_of (pte_at words pd va)) else none

pub frame_at-translate :
    (w w' : ℕ → ℕ) (pd va : ℕ)
    → frame_at w' pd va ≡ frame_at w pd va
    → translate w' pd va ≡ translate w pd va
frame_at-translate w w' pd va e = elim (Bool-cases (is_present (pte_at w' pd va))) [
  | inl a ↦ elim (Bool-cases (is_present (pte_at w pd va))) [
    | inl b ↦
        let f : frame_of (pte_at w' pd va) ≡ frame_of (pte_at w pd va) = ground (arith, e) in
        rw (a, b) (ap (λ p. some (p + va % 4096)) f)
    | inr b ↦ absurd (ground (arith, e))
  ]
  | inr a ↦ elim (Bool-cases (is_present (pte_at w pd va))) [
    | inl b ↦ absurd (ground (arith, e))
    | inr b ↦ rw (a, b) refl
  ]
]

pub frame_at-none : (w : ℕ → ℕ) (pd va : ℕ) → frame_at w pd va ≡ none → translate w pd va ≡ none
frame_at-none w pd va e = elim (Bool-cases (is_present (pte_at w pd va))) [
  | inl a ↦ absurd (ground (arith, e))
  | inr a ↦ rw a refl
]

module _ (io_apic local_apic : ℕ) where
  -- Not a page of the kernel or of a device.
  abbrev pub IsUser : ℕ → Type 0
  IsUser va = is_special io_apic local_apic (va / 4096 * 4096) ≡ false

  -- Each mapped page of user space has a frame that is owned, neither directory nor table, and its own.
  pub record HasPages (owned : ℕ → Bool) (words : ℕ → ℕ) (pd : ℕ) : Type 0 where
    pub private :
        (va p : ℕ)
        → va < 2 ^ 32
        → IsUser va
        → frame_at words pd va ≡ some p
        → IsPrivate owned words pd p
    pub distinct :
        (va vb p : ℕ)
        → va < 2 ^ 32
        → vb < 2 ^ 32
        → IsUser va
        → IsUser vb
        → frame_at words pd va ≡ some p
        → frame_at words pd vb ≡ some p
        → va / 4096 ≡ vb / 4096
