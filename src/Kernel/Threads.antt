-- ===== src/Kernel/Threads.antt =====
-- The scheduler: kernel/threads.h and kernel/threads.cc. The cores run `block` in any interleaving of
-- its accesses to shared state; a queue is the list that it holds. Interrupts, page directories and
-- the machine code of the context switch are left out.
pub mod Places
pub mod Kept
pub mod Held
pub mod Keeps
pub mod Safe
use os_shell.Common.{
  ℕ, zero, suc, ◌+◌, ◌%◌, ◌^◌, Bool, true, false, Option, none, some, List, [], ◌∷◌, ◌++◌, ◌==◌,
  if◌then◌else◌, get_elem?, set, length, ◌>>=◌,
}

pub record Tcb : Type 0 where
  pub is_idle : Bool
  pub id : ℕ

-- What a thread asks `block` to do once its context is saved: `schedule` it, as yield does; add it to
-- the zombies, as stop does; add it to a wait queue, as Semaphore::down does.
pub data Action : Type 0 where
  to_ready to_zombies to_wait : Action

-- Where a core stands: in a thread's own code; before it looks for the next thread, where true is
-- BlockOption::MustBlock; behind that; behind the change of activeThreads, still on the stack of the
-- thread it names; behind the context switch, before the action on that thread.
pub data Stage : Type 0 where
  running : Stage
  asking : Bool → Action → Stage
  chosen leaving acting : Tcb → Action → Stage

-- idleThreads[core], activeThreads[core]
pub record Core : Type 0 where
  pub idle : Tcb
  pub active : Tcb
  pub stage : Stage

-- `waiting` has the threads of all wait queues, `deleted` those whose memory is free.
pub record Threads : Type 0 where
  pub next_id : ℕ
  pub cores : List Core
  pub ready : List Tcb
  pub zombies : List Tcb
  pub waiting : List Tcb
  pub deleted : List Tcb

abbrev idle_core : ℕ → Core
idle_core i =
    let idle : Tcb = record { is_idle = true; id = i } in
    record { idle = idle; active = idle; stage = asking true to_zombies }

-- The idle threads are made first, so that they have the first numbers; each ends in `stop`.
unfoldable pub idle_cores : ℕ → ℕ → List Core
idle_cores zero i = []
idle_cores (suc n) i = idle_core i ∷ idle_cores n (suc i)

unfoldable pub threads_init : ℕ → Threads
threads_init procs = record {
  next_id = procs;
  cores = idle_cores procs 0;
  ready = [];
  zombies = [];
  waiting = [];
  deleted = [];
}

unfoldable pub schedule : Tcb → Threads → Threads
schedule tcb s = if tcb.is_idle then s else record s { ready = s.ready ++ tcb ∷ [] }

-- `thread`; its delete_zombies is a number of rounds of delete_zombie before.
unfoldable pub new_thread : Threads → Threads
new_thread s =
    schedule (record { is_idle = false; id = s.next_id })
      (record s { next_id = (s.next_id + 1) % 2 ^ 32 })

-- A round of delete_zombies; `none` is that there is no zombie.
unfoldable pub delete_zombie : Threads → Option Threads
delete_zombie s = elim s.zombies [
  | [] ↦ none
  | it ∷ rest ↦ some (record s { zombies = rest; deleted = it ∷ s.deleted })
]

-- The element of a list at a position, and the others.
unfoldable pub remove_at : ℕ → List Tcb → Option (Tcb × List Tcb)
remove_at k [] = none
remove_at zero (t ∷ ts) = some (t, ts)
remove_at (suc k) (t ∷ ts) = do (u, us) ← remove_at k ts; some (u, t ∷ us)

-- A thread of a wait queue is scheduled, as Semaphore::up does.
unfoldable pub wake_at : ℕ → Threads → Option Threads
wake_at k s = do (t, ts) ← remove_at k s.waiting; some (schedule t (record s { waiting = ts }))

-- The action; `none` is the assertion of Semaphore::down that an idle thread does not wait.
unfoldable pub finish : Tcb → Action → Threads → Option Threads
finish me to_ready s = some (schedule me s)
finish me to_zombies s =
    some (if me.is_idle then s else record s { zombies = s.zombies ++ me ∷ [] })
finish me to_wait s =
    if me.is_idle then none else some (record s { waiting = s.waiting ++ me ∷ [] })

abbrev pub put : ℕ → Core → Threads → Threads
put c core s = record s { cores = set s.cores c core }

-- What follows readyQ.remove(); `none` is the assertion that an idle thread is that of its core. The
-- assertions on SMP::me() and on interrupts are left out: a step knows its core, and the state has no
-- interrupts.
unfoldable pub take_from : List Tcb → ℕ → Core → Bool → Action → Threads → Option Threads
take_from [] c core must action s =
    if must
    then (if core.active.is_idle
        then (if core.active.id == core.idle.id then some s else none)
        else some (put c (record core { stage = chosen core.idle action }) s))
    else some (put c (record core { stage = running }) s)
take_from (t ∷ ts) c core must action s =
    some (put c (record core { stage = chosen t action }) (record s { ready = ts }))

-- Behind the action, an idle thread goes on with the loop of `stop`.
abbrev pub resumed : Core → Core
resumed core = record core {
  stage = if core.active.is_idle then asking true to_zombies else running;
}

-- A step of core `c` in `block`; `none` is that it is not in it, or an assertion that fails.
unfoldable pub step_core : ℕ → Core → Threads → Option Threads
unfolding take_from
step_core c core s = elim core.stage [
  | running ↦ none
  | asking must action ↦ take_from s.ready c core must action s
  | chosen next action ↦
      some (put c (record core { active = next; stage = leaving core.active action }) s)
  | leaving me action ↦ some (put c (record core { stage = acting me action }) s)
  | acting me action ↦ finish me action (put c (resumed core) s)
]

-- `block`, called by the thread on core `c` in its own code.
unfoldable pub call : ℕ → Core → Bool → Action → Threads → Option Threads
call c core must action s = elim core.stage [
  | running ↦ some (put c (record core { stage = asking must action }) s)
  | _ ↦ none
]

pub data Event : Type 0 where
  thread_event reap_event : Event
  wake_event core_event : ℕ → Event
  block_event : ℕ → Bool → Action → Event

unfoldable pub step : Event → Threads → Option Threads
step thread_event s = some (new_thread s)
step reap_event s = delete_zombie s
step (wake_event k) s = wake_at k s
step (core_event c) s = do core ← get_elem? s.cores c; step_core c core s
step (block_event c must action) s = do core ← get_elem? s.cores c; call c core must action s

-- `yield` and `stop` as the calls that they are.
abbrev pub yield_event : ℕ → Event
yield_event c = block_event c false to_ready

abbrev pub stop_event : ℕ → Event
stop_event c = block_event c true to_zombies

unfoldable pub run : List Event → Threads → Option Threads
unfolding step
run [] s = some s
run (e ∷ es) s = do s' ← step e s; run es s'
