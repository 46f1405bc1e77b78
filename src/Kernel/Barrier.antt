-- ===== src/Kernel/Barrier.antt =====
-- A barrier: kernel/barrier.h, over Kernel.Semaphore. Threads run `sync` in any interleaving of its
-- atomic operations: the decrement, and `down` and `up` of the semaphore.
pub mod Phases
pub mod Meeting
pub mod Safe
pub mod Less
pub mod Progress
use os_shell.Common.{
  ℕ, ◌+◌, ◌-◌, ◌%◌, ◌^◌, Option, none, some, List, [], ◌∷◌, ltb, ◌==◌, if◌then◌else◌, length,
  get_or, set, replicate, ◌>>=◌,
}
use os_shell.Kernel.Semaphore
use os_shell.Kernel.Semaphore.{Semaphore, acquired, blocked}

-- Where a thread stands: before `sync`; behind the decrement, with x == 0 or not; in the queue of
-- the semaphore; behind `down`; behind `sync`.
pub data Phase : Type 0 where
  outside last early asleep passed done : Phase

-- `phases` has an entry for each thread.
pub record Barrier : Type 0 where
  pub count : ℕ
  pub sem : Semaphore
  pub phases : List Phase

-- `n` threads that are to meet at a barrier for `n`.
unfoldable pub start : ℕ → Barrier
start n = record { count = n; sem = Semaphore.make 0; phases = replicate n outside }

abbrev pub phase : Barrier → ℕ → Phase
phase b i = get_or b.phases i done

abbrev pub move : ℕ → Phase → Barrier → Barrier
move i p b = record b { phases = set b.phases i p }

-- `count.add_fetch(-1)`, and the panic at a negative value.
unfoldable pub arrive : ℕ → Barrier → Option Barrier
arrive i b =
    let x = (b.count + 2 ^ 32 - 1) % 2 ^ 32 in
    if ltb x (2 ^ 31)
    then some (move i (if x == 0 then last else early) (record b { count = x }))
    else none

-- What the semaphore's `up` comes to: the thread and the one that it wakes go on.
go_on : ℕ → Barrier → Option ℕ × Semaphore → Barrier
go_on i b (none, sem) = move i done (record b { sem = sem })
go_on i b (some t, sem) = move t passed (move i done (record b { sem = sem }))

-- `sem.up()`
unfoldable pub leave : ℕ → Barrier → Barrier
unfolding go_on
leave i b = go_on i b (Semaphore.up b.sem)

-- `sem.down()`
unfoldable pub enter : ℕ → Barrier → Barrier
enter i b = elim (Semaphore.down i b.sem) [
  | acquired sem ↦ move i passed (record b { sem = sem })
  | blocked sem ↦ move i asleep (record b { sem = sem })
]

-- A step of thread `i` where it stands; `none` is that it cannot move, or a panic.
unfoldable pub step : ℕ → Barrier → Option Barrier
unfolding arrive leave enter
step i b = elim (phase b i) [
  | outside ↦ arrive i b
  | last ↦ some (leave i b)
  | early ↦ some (enter i b)
  | asleep ↦ none
  | passed ↦ some (leave i b)
  | done ↦ none
]

-- The steps of the threads in the order of a schedule.
unfoldable pub run : List ℕ → Barrier → Option Barrier
unfolding step
run [] b = some b
run (i ∷ schedule) b = do b' ← step i b; run schedule b'
