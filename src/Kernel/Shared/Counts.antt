-- ===== src/Kernel/Shared/Counts.antt =====
-- The reference count of an object is the number of variables that refer to it, and an object is
-- deleted when that number becomes zero and not before.
use os_shell.Common.{
  ℕ, zero, suc, ◌+◌, ◌^◌, ◌≤◌, ◌<◌, ◌≡◌, ◌≢◌, inl, inr, refl, false, Option, none, some, List, [],
  ◌∷◌, ◌++◌, arith, ◌==◌, length, length-append, length-set, get_or, get_or-set_ne, set, ap, ◌∙◌,
  Bool-cases,
}
use os_shell.Kernel.Shared.{
  Store, ptr, put, add, drop, same_ptr, make, construct_copy, construct_move, destroy, assign_raw,
  assign_move,
}
use os_shell.Kernel.Shared.Tally.{one, tally, tally-append, tally-set, one-le-tally, tally_one}
use os_shell.Kernel.Shared.Counted.{
  Counted, same-Counted, IsLive, add-Counted, drop_at, drop-handles,
}

set-set {ℓ} : {A : Type ℓ} (xs : List A) (i : ℕ) (a b : A) → set (set xs i a) i b ≡ set xs i b
set-set [] i a b = refl
set-set (x ∷ xs) zero a b = refl
set-set (x ∷ xs) (suc i) a b = ap (λ l. x ∷ l) (set-set xs i a b)

pub ptr-IsLive : (s : Store) (h : ℕ) → IsLive s (ptr s h)
ptr-IsLive s h = ptr_live (ptr s h) (λ o. one-le-tally o s.handles h)
  where
    ptr_live : (p : Option ℕ) → ((o : ℕ) → one o p ≤ tally o s.handles) → IsLive s p
    ptr_live none le = tt
    ptr_live (some q) le = ground (arith, le q)

pub make-Counted : (s : Store) → Counted s → length s.handles + 1 < 2 ^ 32 → Counted (make s)
unfolding make add
make-Counted s c small =
    let grown = λ (o : ℕ).
      let fact : tally o (s.handles ++ some s.made ∷ []) ≡ tally o s.handles + one o (some s.made) =
        omega (arith, tally-append o s.handles (some s.made ∷ []), tally_one o (some s.made)) in
      fact in
    let new = c.fresh s.made (omega arith) in
    record {
      count = λ o. ground (arith, grown o, c.count o, new);
      live = λ o. ground (arith, grown o, c.live o, new);
      fresh = λ o f. ground (arith, grown o, c.fresh o);
    }

pub construct_copy-Counted :
    (s : Store) (rhs : ℕ)
    → Counted s
    → length s.handles + 1 < 2 ^ 32
    → Counted (construct_copy rhs s)
unfolding construct_copy
construct_copy-Counted s rhs c small =
    add-Counted s (ptr s rhs) (s.handles ++ ptr s rhs ∷ []) c (ptr-IsLive s rhs)
      (omega (arith, length-append s.handles (ptr s rhs ∷ [])))
      (λ o. omega (arith, tally-append o s.handles (ptr s rhs ∷ []), tally_one o (ptr s rhs)))

pub construct_move-Counted :
    (s : Store) (rhs : ℕ) → Counted s → rhs < length s.handles → Counted (construct_move rhs s)
unfolding construct_move
construct_move-Counted s rhs c inside =
    same-Counted s (set s.handles rhs none ++ ptr s rhs ∷ []) c (λ o. omega (
      arith,
      tally-append o (set s.handles rhs none) (ptr s rhs ∷ []),
      tally_one o (ptr s rhs),
      tally-set o s.handles rhs none inside,
    ))

pub destroy-Counted :
    (s : Store) (h : ℕ)
    → Counted s
    → h < length s.handles
    → length s.handles < 2 ^ 32
    → Counted (destroy h s)
unfolding destroy
destroy-Counted s h c inside small = drop_at s h (ptr s h) refl c inside small

moved :
    (o : ℕ) (hs : List (Option ℕ)) (h rhs : ℕ) (p : Option ℕ)
    → h < length hs
    → rhs < length hs
    → tally o (set (set (set hs h p) h (get_or (set hs h p) rhs none)) rhs none)
      ≡ tally o (set hs h none)
moved o hs h rhs p inside inside' = elim (Bool-cases (h == rhs)) [
  | inl e ↦
      let same : h ≡ rhs = ground arith in
      rw (← same) (ap (tally o) (set-set (set hs h p) h _ none ∙ set-set hs h p none))
  | inr e ↦
      let apart : h ≢ rhs = ground arith in
      let q = get_or hs rhs none in
      rw (get_or-set_ne hs h rhs p none apart, set-set hs h p q)
        (omega (
          arith,
          tally-set o (set hs h q) rhs none (omega (arith, length-set hs h q)),
          ap (one o) (get_or-set_ne hs h rhs q none apart),
          tally-set o hs h q inside,
          tally-set o hs h none inside,
        ))
]

-- What another object's variables are is not touched by a drop.
IsLive-drop :
    (s : Store) (h : ℕ) (p : Option ℕ)
    → h < length s.handles
    → same_ptr (ptr s h) p ≡ false
    → IsLive s p
    → IsLive (put (drop (ptr s h) s).1 h none) p
IsLive-drop s h none inside differ live = tt
IsLive-drop s h (some q) inside differ live =
    let gone = tally-set q s.handles h none inside in
    let other : one q (ptr s h) ≡ 0 = other_ptr (ptr s h) q differ in
    rw (drop-handles (ptr s h) s) (omega (arith, gone, other))
  where
    other_ptr : (p : Option ℕ) (q : ℕ) → same_ptr p (some q) ≡ false → one q p ≡ 0
    other_ptr none q e = refl
    other_ptr (some o) q e = ground arith

-- A variable that stands for another object than before.
pub assign_raw-Counted :
    (s : Store) (h : ℕ) (p : Option ℕ)
    → Counted s
    → h < length s.handles
    → length s.handles < 2 ^ 32
    → IsLive s p
    → Counted (assign_raw h p s)
unfolding assign_raw
assign_raw-Counted s h p c inside small live = elim (Bool-cases (same_ptr (ptr s h) p)) [
  | inl same ↦ rw same c
  | inr differ ↦
      let left = (drop (ptr s h) s).1 in
      let size : length left.handles ≡ length s.handles = ap length (drop-handles (ptr s h) s) in
      rw differ (
        add-Counted (put left h none) p (set left.handles h p)
          (drop_at s h (ptr s h) refl c inside small) (IsLive-drop s h p inside differ live)
          (omega (arith, size, length-set left.handles h p))
          (λ o. omega (
            arith,
            size,
            tally-set o left.handles h none (omega arith),
            tally-set o left.handles h p (omega arith),
          )))
]

pub assign_move-Counted :
    (s : Store) (h rhs : ℕ)
    → Counted s
    → h < length s.handles
    → rhs < length s.handles
    → length s.handles < 2 ^ 32
    → Counted (assign_move h rhs s)
unfolding assign_move
assign_move-Counted s h rhs c inside inside' small =
    let left = (drop (ptr s h) s).1 in
    let p = (drop (ptr s h) s).0 in
    let c0 = drop_at s h (ptr s h) refl c inside small in
    let size : length left.handles ≡ length s.handles = ap length (drop-handles (ptr s h) s) in
    same-Counted (put left h none) _ c0
      (λ o. moved o left.handles h rhs p (omega (arith, size)) (omega (arith, size)))
