-- ===== src/Kernel/Locks/Kept.antt =====
-- What the cores remember, and what changes one core.
use os_shell.Common.{ℕ, ◌≡◌, ◌≢◌, refl, Bool, true, false, arith, ◌==◌, if◌then◌else◌, sym, ◌∙◌}
use os_shell.Kernel.Shared.{update}
use os_shell.Kernel.Locks.{
  Position, outside, again, holding, tried, lost, won, releasing, released, Core, Lock, disable,
  restore,
}

-- From the exchange that wins to the store to `taken`.
abbrev pub is_inside : Position → Bool
is_inside holding = true
is_inside (won w) = true
is_inside (releasing w) = true
is_inside _ = false

-- What a core remembers is the flag of its code outside; on its way in and inside it has no
-- interrupts.
abbrev pub Remembers : Bool → Core → Position → Type 0
Remembers was core outside = core.is_disabled ≡ core.own
Remembers was core again = core.is_disabled ≡ core.own
Remembers was core holding = (was ≡ core.own) × (core.is_disabled ≡ true)
Remembers was core (tried w) = (w ≡ core.own) × (core.is_disabled ≡ true)
Remembers was core (lost w) = (w ≡ core.own) × (core.is_disabled ≡ true)
Remembers was core (won w) = (w ≡ core.own) × (core.is_disabled ≡ true)
Remembers was core (releasing w) = (w ≡ core.own) × (core.is_disabled ≡ true)
Remembers was core (released w) = (w ≡ core.own) × (core.is_disabled ≡ true)

abbrev pub Enters : Core → Type 0
Enters core = is_inside core.position ≡ true

pub record IsSafe (s : Lock) : Type 0 where
  pub shut : (i : ℕ) → Enters (s.cores i) → s.taken ≡ true
  pub one : (i j : ℕ) → Enters (s.cores i) → Enters (s.cores j) → i ≡ j
  pub flags : (i : ℕ) → Remembers s.was (s.cores i) (s.cores i).position

updated {ℓ κ} :
    {A : Type ℓ} (P : A → Type κ) (f : ℕ → A) (c : ℕ) (v : A) (j : ℕ)
    → (j ≡ c → P v)
    → (j ≢ c → P (f j))
    → P (update f c v j)
updated P f c v j h k = by_test (j == c) refl
  where
    by_test : (b : Bool) → (j == c) ≡ b → P (if b then v else f j)
    by_test true e = h (ground (arith, e))
    by_test false e = k (ground (arith, e))

pub move-IsSafe :
    (c : ℕ) (core : Core) (taken was : Bool) (s : Lock)
    → IsSafe s
    → (Enters core → (taken ≡ true) × ((j : ℕ) → j ≢ c → Enters (s.cores j) → ⊥))
    → ((j : ℕ) → j ≢ c → Enters (s.cores j) → taken ≡ true)
    → Remembers was core core.position
    → ((j : ℕ) → j ≢ c → Remembers was (s.cores j) (s.cores j).position)
    → IsSafe (record { taken = taken; was = was; cores = update s.cores c core })
move-IsSafe c core taken was s k enters others mine theirs = record {
  shut =
      λ i. updated (λ x. Enters x → taken ≡ true) s.cores c core i (λ e h. (enters h).0) (others i);
  one = λ i j.
      updated (λ x. Enters x → Enters (update s.cores c core j) → i ≡ j) s.cores c core i
        (λ ic e.
          updated (λ y. Enters y → i ≡ j) s.cores c core j (λ jc f. ic ∙ sym jc)
            (λ jn f. absurd ((enters e).1 j jn f)))
        (λ away e.
          updated (λ y. Enters y → i ≡ j) s.cores c core j (λ jc f. absurd ((enters f).1 i away e))
            (λ jn f. k.one i j e f));
  flags = λ i. updated (λ x. Remembers was x x.position) s.cores c core i (λ e. mine) (theirs i);
}

pub disable_lem :
    (core : Core)
    → ((disable core).1.is_disabled ≡ true)
      × ((disable core).0 ≡ core.is_disabled)
      × ((disable core).1.own ≡ core.own)
unfolding disable
disable_lem core = by_flag core.is_disabled refl
  where
    by_flag :
        (b : Bool)
        → core.is_disabled ≡ b
        → ((if b then core else record core { is_disabled = true }).is_disabled ≡ true)
          × (core.is_disabled ≡ core.is_disabled)
          × ((if b then core else record core { is_disabled = true }).own ≡ core.own)
    by_flag true e = (e, refl, refl)
    by_flag false e = (refl, refl, refl)

pub restore_lem :
    (w : Bool) (core : Core)
    → (w ≡ core.own) × (core.is_disabled ≡ true)
    → (restore w core).is_disabled ≡ (restore w core).own
unfolding restore
restore_lem true core h = h.1 ∙ h.0
restore_lem false core h = h.0

pub false-ne-true : false ≢ true
false-ne-true h = cc
