-- ===== src/Kernel/Vmm/Clears.antt =====
-- Steps that take pages of user space away.
use os_shell.Common.{
  ℕ, ◌/◌, ◌^◌, ◌<◌, ◌≡◌, ◌≢◌, inl, inr, refl, true, false, Bool, ◌||◌, ◌==◌, none, some, List,
  arith, if◌then◌else◌, Bool-cases, ap, sym, ◌∙◌, subst,
}
use os_shell.Kernel.PhysMem.{Memory}
use os_shell.Kernel.Vmm.{frame_of, is_present}
use os_shell.Kernel.Vmm.Maps.{IsMapped}
use os_shell.Kernel.Vmm.Pages.{frame_at, IsUser, HasPages}
use os_shell.Kernel.Vmm.Freed.{IsPrivate, Unmaps}
use os_shell.Kernel.Vmm.Unmaps.{page_pte}
use os_shell.Kernel.Vmm.Walk.{pte_at}

frame_at-some :
    (w : ℕ → ℕ) (pd va : ℕ)
    → is_present (pte_at w pd va) ≡ true
    → frame_at w pd va ≡ some (frame_of (pte_at w pd va))
frame_at-some w pd va e = rw e refl

pub frame_at-gone :
    (w : ℕ → ℕ) (pd va : ℕ) → is_present (pte_at w pd va) ≡ false → frame_at w pd va ≡ none
frame_at-gone w pd va e = rw e refl

pub frame_at-same :
    (w w' : ℕ → ℕ) (pd va vb : ℕ)
    → pte_at w' pd va ≡ pte_at w pd vb
    → frame_at w' pd va ≡ frame_at w pd vb
frame_at-same w w' pd va vb e = ap (λ x. if is_present x then some (frame_of x) else none) e

-- `some p` and `none` are two.
pub some-ne-none {ℓ} : {A : Type ℓ} {x : A} → some x ≢ none
some-ne-none h = cc

pub some-injective {ℓ} : {A : Type ℓ} {x y : A} → some x ≡ some y → x ≡ y
some-injective h = cc

module _ (io_apic local_apic start pd : ℕ) where
  -- The pages that `cleared` names are gone and their frames are given back; the others remain.
  pub record Clears (cleared : ℕ → Bool) (owned : ℕ → Bool) (m : Memory) (owned' : ℕ → Bool)
      (m' : Memory) (free' : List ℕ) : Type 0 where
    pub mapped : IsMapped start owned' m' free' pd
    pub pages : HasPages io_apic local_apic owned' m'.words pd
    pub gone : (va : ℕ) → va < 2 ^ 32 → cleared va ≡ true → frame_at m'.words pd va ≡ none
    pub freed :
        (va p : ℕ)
        → va < 2 ^ 32
        → cleared va ≡ true
        → frame_at m.words pd va ≡ some p
        → owned' p ≡ false
    pub others :
        (va : ℕ)
        → va < 2 ^ 32
        → cleared va ≡ false
        → frame_at m'.words pd va ≡ frame_at m.words pd va
    pub less : (a : ℕ) → owned a ≡ false → owned' a ≡ false

  pub no_step :
      (owned : ℕ → Bool) (m : Memory) (free : List ℕ)
      → IsMapped start owned m free pd
      → HasPages io_apic local_apic owned m.words pd
      → Clears (λ va. false) owned m owned m free
  no_step owned m free mapped pages = record {
    mapped = mapped;
    pages = pages;
    gone = λ va h c. absurd (ground arith);
    freed = λ va p h c e. absurd (ground arith);
    others = λ va h c. refl;
    less = λ a o. o;
  }

  -- The same pages, named in another way.
  pub named :
      (c c' : ℕ → Bool) (owned : ℕ → Bool) (m : Memory) (owned' : ℕ → Bool) (m' : Memory)
      (free' : List ℕ)
      → ((va : ℕ) → va < 2 ^ 32 → c' va ≡ c va)
      → Clears c owned m owned' m' free'
      → Clears c' owned m owned' m' free'
  named c c' owned m owned' m' free' same s = record {
    mapped = s.mapped;
    pages = s.pages;
    gone = λ va h e. s.gone va h (sym (same va h) ∙ e);
    freed = λ va p h e. s.freed va p h (sym (same va h) ∙ e);
    others = λ va h e. s.others va h (sym (same va h) ∙ e);
    less = s.less;
  }

  pub both :
      (c1 c2 : ℕ → Bool) (owned : ℕ → Bool) (m : Memory) (owned1 : ℕ → Bool) (m1 : Memory)
      (free1 : List ℕ) (owned2 : ℕ → Bool) (m2 : Memory) (free2 : List ℕ)
      → Clears c1 owned m owned1 m1 free1
      → Clears c2 owned1 m1 owned2 m2 free2
      → Clears (λ va. c1 va || c2 va) owned m owned2 m2 free2
  both c1 c2 owned m owned1 m1 free1 owned2 m2 free2 s1 s2 = record {
    mapped = s2.mapped;
    pages = s2.pages;
    gone = λ va h e. elim (Bool-cases (c2 va)) [
      | inl b ↦ s2.gone va h b
      | inr b ↦ s2.others va h b ∙ s1.gone va h (ground arith)
    ];
    freed = λ va p h e there. elim (Bool-cases (c1 va)) [
      | inl a ↦ s2.less p (s1.freed va p h a there)
      | inr a ↦ s2.freed va p h (ground arith) (s1.others va h a ∙ there)
    ];
    others = λ va h e. s2.others va h (ground arith) ∙ s1.others va h (ground arith);
    less = λ a o. s2.less a (s1.less a o);
  }

  -- The page of `va` is unmapped.
  module _ (owned : ℕ → Bool) (m : Memory) (va : ℕ) (m' : Memory) (owned' : ℕ → Bool)
      (free' : List ℕ) (small : va < 2 ^ 32) (user : IsUser io_apic local_apic va)
      (pages : HasPages io_apic local_apic owned m.words pd)
      (u : Unmaps start owned m pd va m' owned' free') where
    abbrev page : ℕ → Bool
    page vb = vb / 4096 == va / 4096

    page-gone : (vb : ℕ) → page vb ≡ true → frame_at m'.words pd vb ≡ none
    page-gone vb e =
        frame_at-gone m'.words pd vb
          (ap is_present (page_pte m'.words pd va vb (ground arith)) ∙ u.gone)

    page-others :
        (vb : ℕ) → vb < 2 ^ 32 → page vb ≡ false → frame_at m'.words pd vb ≡ frame_at m.words pd vb
    page-others vb h e = frame_at-same m.words m'.words pd vb vb (u.others vb h (ground arith))

    -- A page that is still there was there, and is not the page of `va`.
    still :
        (vb p : ℕ)
        → vb < 2 ^ 32
        → frame_at m'.words pd vb ≡ some p
        → (page vb ≡ false) × (frame_at m.words pd vb ≡ some p)
    still vb p h there = elim (Bool-cases (page vb)) [
      | inl e ↦ absurd (some-ne-none (sym there ∙ page-gone vb e))
      | inr e ↦ (e, sym (page-others vb h e) ∙ there)
    ]

    unmapped-IsPrivate :
        (vb p : ℕ)
        → vb < 2 ^ 32
        → IsUser io_apic local_apic vb
        → frame_at m'.words pd vb ≡ some p
        → IsPrivate owned' m'.words pd p
    unmapped-IsPrivate vb p h user' there =
        let (other, before) = still vb p h there in
        let (o, ne, tables) = pages.private vb p h user' before in
        (
          u.keeps p o (λ there' same.
              let both_there = frame_at-some m.words pd va there' ∙ ap some (sym same) in
              let one = pages.distinct vb va p h small user' user before both_there in
              ground arith),
          ne,
          λ i hi pi e.
              tables i hi (subst (λ x. is_present x ≡ true) (u.roots i hi) pi)
                (ap frame_of (sym (u.roots i hi)) ∙ e),
        )

    page-freed : (vb p : ℕ) → page vb ≡ true → frame_at m.words pd vb ≡ some p → owned' p ≡ false
    page-freed vb p e there =
        let at_va : frame_at m.words pd va ≡ some p =
          sym (frame_at-same m.words m.words pd vb va (page_pte m.words pd va vb (ground arith)))
          ∙ there in
        elim (Bool-cases (is_present (pte_at m.words pd va))) [
          | inl a ↦
              subst (λ x. owned' x ≡ false)
                (some-injective (sym (frame_at-some m.words pd va a) ∙ at_va)) (u.freed a)
          | inr a ↦ absurd (some-ne-none (sym at_va ∙ frame_at-gone m.words pd va a))
        ]

    pub unmapped-Clears : Clears page owned m owned' m' free'
    unmapped-Clears = record {
      mapped = u.mapped;
      pages = record {
        private = unmapped-IsPrivate;
        distinct = λ vb vc p hb hc ub uc eb ec.
            pages.distinct vb vc p hb hc ub uc (still vb p hb eb).1 (still vc p hc ec).1;
      };
      gone = λ vb h e. page-gone vb e;
      freed = λ vb p h e there. page-freed vb p e there;
      others = page-others;
      less = u.less;
    }
