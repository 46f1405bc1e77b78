-- ===== src/Kernel/Semaphore.antt =====
-- kernel/semaphore.h: a counting semaphore with a first-come first-served queue of threads.
-- Each operation runs under the semaphore's own lock, so it is one step; interrupt flags are left out.
pub mod Fair
use os_shell.Common.{
  ℕ, ◌+◌, ◌-◌, ◌%◌, ◌^◌, Option, none, some, List, [], ◌∷◌, ◌++◌, ltb, if◌then◌else◌,
}

-- A thread is known by its number.
pub record Semaphore : Type 0 where
  pub count : ℕ
  pub waiting : List ℕ

abbrev pub make : ℕ → Semaphore
make n = record { count = n; waiting = [] }

-- What `down` does to the thread that calls it: it goes on, or it is in the queue.
pub data Down : Type 0 where
  acquired blocked : Semaphore → Down

unfoldable pub down : ℕ → Semaphore → Down
down me s =
    if ltb 0 s.count
    then acquired (record s { count = s.count - 1 })
    else blocked (record s { waiting = s.waiting ++ me ∷ [] })

-- The thread that is scheduled, if there is one, and the new state. A thread that `up` wakes has
-- finished its `down`: it does not look at the count again.
wake : Semaphore → List ℕ → Option ℕ × Semaphore
wake s [] = (none, record s { count = (s.count + 1) % 2 ^ 64 })
wake s (t ∷ ts) = (some t, record s { waiting = ts })

unfoldable pub up : Semaphore → Option ℕ × Semaphore
unfolding wake
up s = wake s s.waiting
