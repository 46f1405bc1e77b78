-- ===== src/Common/Memory.antt =====
-- Bytes behind a store.
use Prim.Native.Nat.{ℕ, zero, suc, ◌+◌, ◌-◌, ◌≤◌}
use mathlib.Core.Path.{◌≡◌, refl, ap, ap₂, sym, ◌∙◌}
use mathlib.Core.Logic.{◌⊎◌, inl, inr}
use mathlib.Core.Bool.{true, false, ◌&&◌}
use mathlib.Core.List.{List, ◌∷◌, ◌++◌}
use native.Mathlib.Omega.{arith}
use os_shell.Common.Tests.{leb, ltb}
use os_shell.Common.Lists.{get_or, length, take, drop, drop-get_or}
use os_shell.Common.Text.{bytes_at, store}

-- A range that the store does not touch.
pub bytes_at-store_apart :
    (m : ℕ → ℕ) (p : ℕ) (bs : List ℕ) (a n : ℕ)
    → (a + n ≤ p) ⊎ (p + length bs ≤ a)
    → bytes_at (store m p bs) a n ≡ bytes_at m a n
bytes_at-store_apart m p bs a zero h = refl
bytes_at-store_apart m p bs a (suc n) h =
    let e : (leb p a && ltb a (p + length bs)) ≡ false = ground arith in
    let next : (a + 1 + n ≤ p) ⊎ (p + length bs ≤ a + 1) = elim h [
      | inl l ↦ inl (omega arith)
      | inr l ↦ inr (omega arith)
    ] in
    rw e (ap (λ l. m a ∷ l) (bytes_at-store_apart m p bs (a + 1) n next))

-- The bytes that were stored, from the `i`th on.
bytes_at-store_from :
    (m : ℕ → ℕ) (p : ℕ) (bs : List ℕ) (i n : ℕ)
    → i + n ≤ length bs
    → bytes_at (store m p bs) (p + i) n ≡ take n (drop i bs)
bytes_at-store_from m p bs i zero h = refl
bytes_at-store_from m p bs i (suc n) h =
    let here : (leb p (p + i) && ltb (p + i) (p + length bs)) ≡ true = ground arith in
    let index : p + i - p ≡ i = omega arith in
    let next : p + i + 1 ≡ p + (i + 1) = omega arith in
    rw (here, index, next)
      (ap (λ l. get_or bs i 0 ∷ l) (bytes_at-store_from m p bs (i + 1) n (omega arith))
        ∙ ap (take (suc n)) (sym (drop-get_or bs i 0 (omega arith))))

pub bytes_at-store_self :
    (m : ℕ → ℕ) (p : ℕ) (bs : List ℕ) (n : ℕ)
    → n ≤ length bs
    → bytes_at (store m p bs) p n ≡ take n bs
bytes_at-store_self m p bs n h =
    ap (λ a. bytes_at (store m p bs) a n) (omega arith)
    ∙ bytes_at-store_from m p bs 0 n (omega arith)

pub bytes_at-append :
    (m : ℕ → ℕ) (a j k : ℕ) → bytes_at m a j ++ bytes_at m (a + j) k ≡ bytes_at m a (j + k)
bytes_at-append m a zero k = ap₂ (bytes_at m) (omega arith) (omega arith)
bytes_at-append m a (suc j) k =
    let e : a + suc j ≡ a + 1 + j = omega arith in
    let f : suc j + k ≡ suc (j + k) = omega arith in
    rw (e, f) (ap (λ l. m a ∷ l) (bytes_at-append m (a + 1) j k))
