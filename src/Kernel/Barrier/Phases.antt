-- ===== src/Kernel/Barrier/Phases.antt =====
-- Sums over the phases of the threads.
use os_shell.Common.{
  ℕ, zero, suc, ◌+◌, ◌*◌, ◌≤◌, ◌<◌, ◌≡◌, ◌≢◌, List, [], ◌∷◌, ◌++◌, arith, ◌==◌, if◌then◌else◌,
  length, get_or, set, replicate,
}
use os_shell.Kernel.Barrier.{Phase, outside, last, early, asleep, passed, done}

unfoldable pub total : (Phase → ℕ) → List Phase → ℕ
total w [] = 0
total w (p ∷ ps) = w p + total w ps

pub total-set :
    (w : Phase → ℕ) (ps : List Phase) (i : ℕ) (q : Phase)
    → i < length ps
    → total w (set ps i q) + w (get_or ps i done) ≡ total w ps + w q
unfolding total
total-set w [] i q h = absurd (omega arith)
total-set w (p ∷ ps) zero q h = omega arith
total-set w (p ∷ ps) (suc i) q h = omega (arith, total-set w ps i q (omega arith))

pub le-total :
    (w : Phase → ℕ) (ps : List Phase) (i : ℕ) → i < length ps → w (get_or ps i done) ≤ total w ps
unfolding total
le-total w [] i h = absurd (omega arith)
le-total w (p ∷ ps) zero h = omega arith
le-total w (p ∷ ps) (suc i) h = omega (arith, le-total w ps i (omega arith))

pub total-replicate : (w : Phase → ℕ) (n : ℕ) (p : Phase) → total w (replicate n p) ≡ n * w p
unfolding total
total-replicate w zero p = omega arith
total-replicate w (suc n) p = grind (arith, total-replicate w n p)

-- Threads that have not come yet; those that will raise the semaphore; those that are past the
-- barrier; and how many steps a thread has left at most.
abbrev pub is_outside : Phase → ℕ
is_outside outside = 1
is_outside last = 0
is_outside early = 0
is_outside asleep = 0
is_outside passed = 0
is_outside done = 0

abbrev pub has_token : Phase → ℕ
has_token outside = 0
has_token last = 1
has_token early = 0
has_token asleep = 0
has_token passed = 1
has_token done = 0

abbrev pub is_past : Phase → ℕ
is_past outside = 0
is_past last = 1
is_past early = 0
is_past asleep = 0
is_past passed = 1
is_past done = 1

abbrev pub is_asleep : Phase → ℕ
is_asleep outside = 0
is_asleep last = 0
is_asleep early = 0
is_asleep asleep = 1
is_asleep passed = 0
is_asleep done = 0

abbrev pub steps_left : Phase → ℕ
steps_left outside = 4
steps_left last = 1
steps_left early = 3
steps_left asleep = 2
steps_left passed = 1
steps_left done = 0

-- How often a thread stands in the queue.
unfoldable pub occurs : ℕ → List ℕ → ℕ
occurs i [] = 0
occurs i (t ∷ ts) = (if i == t then 1 else 0) + occurs i ts

pub occurs-append :
    (i : ℕ) (ts : List ℕ) (t : ℕ)
    → occurs i (ts ++ t ∷ []) ≡ occurs i ts + (if i == t then 1 else 0)
unfolding occurs
occurs-append i [] t = omega arith
occurs-append i (u ∷ ts) t = omega (arith, occurs-append i ts t)

pub outside-le-length : (ps : List Phase) → total is_outside ps ≤ length ps
unfolding total
outside-le-length [] = omega arith
outside-le-length (outside ∷ ps) = omega (arith, outside-le-length ps)
outside-le-length (last ∷ ps) = omega (arith, outside-le-length ps)
outside-le-length (early ∷ ps) = omega (arith, outside-le-length ps)
outside-le-length (asleep ∷ ps) = omega (arith, outside-le-length ps)
outside-le-length (passed ∷ ps) = omega (arith, outside-le-length ps)
outside-le-length (done ∷ ps) = omega (arith, outside-le-length ps)

pub token-le-past : (ps : List Phase) → total has_token ps ≤ total is_past ps
unfolding total
token-le-past [] = omega arith
token-le-past (outside ∷ ps) = omega (arith, token-le-past ps)
token-le-past (last ∷ ps) = omega (arith, token-le-past ps)
token-le-past (early ∷ ps) = omega (arith, token-le-past ps)
token-le-past (asleep ∷ ps) = omega (arith, token-le-past ps)
token-le-past (passed ∷ ps) = omega (arith, token-le-past ps)
token-le-past (done ∷ ps) = omega (arith, token-le-past ps)

pub outside-ne-done : outside ≢ done
outside-ne-done h = cc

pub asleep-ne-done : asleep ≢ done
asleep-ne-done h = cc

pub early-ne-done : early ≢ done
early-ne-done h = cc
