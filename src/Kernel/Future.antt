-- ===== src/Kernel/Future.antt =====
-- A future: kernel/future.h, over Kernel.Semaphore. One thread sets it and any number of threads get
-- it, in any interleaving of the accesses to its fields and of `down` and `up`.
pub mod Sound
pub mod Safe
use os_shell.Common.{ℕ, Bool, true, false, Option, none, some, List, [], ◌∷◌, ◌>>=◌, if◌then◌else◌}
use os_shell.Kernel.Semaphore
use os_shell.Kernel.Semaphore.{Semaphore, acquired, blocked}
use os_shell.Kernel.Shared.{update}

-- Where the thread that calls `set` stands: before it, behind each of the two assignments, behind it.
pub data Setting : Type 0 where
  before stored raised finished : Setting

-- Where a thread that calls `get` stands: before it; behind a test that found the future not ready;
-- in the queue of the semaphore; behind `down`; before the read of `t`; behind `get`.
pub data Getting : Type 0 where
  outside unready asleep passed reading : Getting
  got : ℕ → Getting

pub record Future : Type 0 where
  pub go : Semaphore
  pub is_ready : Bool
  pub t : ℕ
  pub setting : Setting
  pub getting : ℕ → Getting

unfoldable pub new_future : ℕ → Future
new_future t = record {
  go = Semaphore.make 0;
  is_ready = false;
  t = t;
  setting = before;
  getting = λ i. outside;
}

abbrev pub move_to : ℕ → Getting → Future → Future
move_to i p f = record f { getting = update f.getting i p }

-- A thread that `up` wakes is behind its `down`.
unfoldable pub woken : Option ℕ × Semaphore → Future → Future
woken (none, sem) f = record f { go = sem }
woken (some i, sem) f = move_to i passed (record f { go = sem })

-- A step of `set(v)`; `none` is the failed assertion, or that it has no step left.
unfoldable pub set_step : ℕ → Future → Option Future
unfolding woken
set_step v f = elim f.setting [
  | before ↦ if f.is_ready then none else some (record f { t = v; setting = stored })
  | stored ↦ some (record f { is_ready = true; setting = raised })
  | raised ↦ some (woken (Semaphore.up f.go) (record f { setting = finished }))
  | finished ↦ none
]

-- `go.down()`
unfoldable pub wait_for : ℕ → Future → Future
wait_for i f = elim (Semaphore.down i f.go) [
  | acquired sem ↦ move_to i passed (record f { go = sem })
  | blocked sem ↦ move_to i asleep (record f { go = sem })
]

-- A step of `get()` in thread `i`.
unfoldable pub get_step : ℕ → Future → Option Future
unfolding woken wait_for
get_step i f = elim (f.getting i) [
  | outside ↦ some (move_to i (if f.is_ready then reading else unready) f)
  | unready ↦ some (wait_for i f)
  | asleep ↦ none
  | passed ↦ some (woken (Semaphore.up f.go) (move_to i reading f))
  | reading ↦ some (move_to i (got f.t) f)
  | got x ↦ none
]

-- The steps in the order of a schedule: `none` is the thread that sets.
unfoldable pub run : ℕ → List (Option ℕ) → Future → Option Future
unfolding set_step get_step
run v [] f = some f
run v (none ∷ schedule) f = do f' ← set_step v f; run v schedule f'
run v (some i ∷ schedule) f = do f' ← get_step i f; run v schedule f'
