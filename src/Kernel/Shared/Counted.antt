-- ===== src/Kernel/Shared/Counted.antt =====
-- Counts that agree with the variables, and references that are added and dropped.
use os_shell.Common.{
  ℕ, ◌+◌, ◌-◌, ◌%◌, ◌^◌, ◌≤◌, ◌<◌, ◌≡◌, inl, inr, refl, Option, none, some, List, arith, ltb, ◌==◌,
  length, set, ap, sym, ◌∙◌, Bool-cases,
}
use os_shell.Kernel.Shared.{Store, no_objects, ptr, put, add, drop}
use os_shell.Kernel.Shared.Tally.{one, tally, tally-set, tally-le-length}

pub record Counted (s : Store) : Type 0 where
  pub count : (o : ℕ) → s.ref_count o ≡ tally o s.handles
  pub live : (o : ℕ) → s.alive o ≡ ltb 0 (tally o s.handles)
  pub fresh : (o : ℕ) → s.made ≤ o → tally o s.handles ≡ 0

pub no_objects-Counted : Counted no_objects
unfolding tally
no_objects-Counted = record { count = λ o. refl; live = λ o. refl; fresh = λ o h. refl }

-- Variables that refer to the same objects as often.
pub same-Counted :
    (s : Store) (hs : List (Option ℕ))
    → Counted s
    → ((o : ℕ) → tally o hs ≡ tally o s.handles)
    → Counted (record s { handles = hs })
same-Counted s hs c e = record {
  count = λ o. c.count o ∙ sym (e o);
  live = λ o. c.live o ∙ ap (ltb 0) (sym (e o));
  fresh = λ o h. e o ∙ c.fresh o h;
}

abbrev pub IsLive : Store → Option ℕ → Type 0
IsLive s none = Unit
IsLive s (some o) = 0 < tally o s.handles

-- One more variable that refers to an object that is alive.
pub add-Counted :
    (s : Store) (p : Option ℕ) (hs : List (Option ℕ))
    → Counted s
    → IsLive s p
    → length hs < 2 ^ 32
    → ((o : ℕ) → tally o hs ≡ tally o s.handles + one o p)
    → Counted (add p (record s { handles = hs }))
unfolding add
add-Counted s none hs c l small e = same-Counted s hs c (λ o. omega (arith, e o))
add-Counted s (some q) hs c l small e = record {
  count = λ o. ground (arith, e o, e q, c.count o, c.count q, tally-le-length q hs);
  live = λ o. ground (arith, e o, c.live o);
  fresh = λ o h. ground (arith, e o, c.fresh o h, c.fresh q);
}

-- The variable that is dropped is counted no more.
pub drop_at :
    (s : Store) (h : ℕ) (p : Option ℕ)
    → ptr s h ≡ p
    → Counted s
    → h < length s.handles
    → length s.handles < 2 ^ 32
    → Counted (put (drop p s).1 h none)
unfolding drop
drop_at s h none e c inside small =
    same-Counted s (set s.handles h none) c
      (λ o. omega (arith, tally-set o s.handles h none inside, ap (one o) e))
drop_at s h (some q) e c inside small =
    let left = λ (o : ℕ).
      let gone = tally-set o s.handles h none inside in
      let there = ap (one o) e in
      let fact : tally o (set s.handles h none) + one o (some q) ≡ tally o s.handles =
        omega (arith, gone, there) in
      fact in
    let bound = tally-le-length q s.handles in
    let some_left : 0 < tally q s.handles = ground (arith, left q) in
    let less : (s.ref_count q + 2 ^ 32 - 1) % 2 ^ 32 ≡ tally q s.handles - 1 =
      omega (arith, c.count q) in
    elim (Bool-cases ((s.ref_count q + 2 ^ 32 - 1) % 2 ^ 32 == 0)) [
      | inl zero' ↦ rw zero' (record {
        count = λ o. ground (arith, left o, left q, c.count o);
        live = λ o. ground (arith, left o, left q, c.live o);
        fresh = λ o f. ground (arith, left o, c.fresh o f);
      })
      | inr more ↦ rw more (record {
        count = λ o. ground (arith, left o, left q, c.count o);
        live = λ o. ground (arith, left o, left q, c.live o);
        fresh = λ o f. ground (arith, left o, c.fresh o f);
      })
    ]

pub drop-handles : (p : Option ℕ) (s : Store) → (drop p s).1.handles ≡ s.handles
unfolding drop
drop-handles none s = refl
drop-handles (some q) s = elim (Bool-cases ((s.ref_count q + 2 ^ 32 - 1) % 2 ^ 32 == 0)) [
  | inl e ↦ rw e
  | inr e ↦ rw e
]
