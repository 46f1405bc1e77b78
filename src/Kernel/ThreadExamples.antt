-- ===== src/Kernel/ThreadExamples.antt =====
-- The theorems on reference counts and barriers at concrete histories and schedules.
use os_shell.Common.{
  Option, ℕ, false, get_elem?, ◌*◌, ◌<◌, ◌≤◌, ◌≡◌, ◌≢◌, refl, none, some, List, [], ◌∷◌, arith,
  true, ltb, length,
}
use os_shell.Kernel.Barrier.{Barrier, outside, done, start, phase, step, run}
use os_shell.Kernel.Barrier.Phases.{is_past}
use os_shell.Kernel.Barrier.Progress.{barrier_safe, barrier_live}
use os_shell.Kernel.Future
use os_shell.Kernel.Future.{
  Future, finished, unready, reading, got, new_future, set_step, get_step, wait_for, woken,
}
use os_shell.Kernel.Future.Safe.{future_safe}
use os_shell.Kernel.Semaphore
use os_shell.Kernel.Threads
use os_shell.Kernel.Threads.{
  Tcb, Core, Threads, asking, leaving, to_zombies, to_ready, threads_init, idle_cores, schedule,
  new_thread, take_from, finish, step_core, call, thread_event, core_event, yield_event,
}
use os_shell.Kernel.Threads.Places.{places, is_made, occurs, stack_of}
use os_shell.Kernel.Threads.Safe.{made_after, one_place, stacks_apart, asserts_hold}
use os_shell.Kernel.Locks.{new_lock, disable, restore, outside, set_flag, step_event, flag_event}
use os_shell.Kernel.Locks
use os_shell.Kernel.Locks.Kept.{is_inside}
use os_shell.Kernel.Locks.Safe.{lock_safe}
use os_shell.Kernel.Shared
use os_shell.Kernel.Shared.{
  Store, no_objects, ptr, Op, make_op, copy_op, move_op, destroy_op, assign_op,
}
use os_shell.Kernel.Shared.Histories.{run_lem}
use os_shell.Kernel.Shared.Tally.{tally}

-- An object with two variables, of which one then refers to another object.
abbrev some_ops : List Op
some_ops = make_op ∷ copy_op 0 ∷ make_op ∷ assign_op 0 2 ∷ destroy_op 1 ∷ []

run_lem_example :
    let s = Shared.run some_ops no_objects in
    ((o : ℕ) → s.ref_count o ≡ tally o s.handles)
    × ((o : ℕ) → s.alive o ≡ ltb 0 (tally o s.handles))
    × ((h o : ℕ) → ptr s h ≡ some o → s.alive o ≡ true)
run_lem_example = run_lem some_ops (omega arith)

-- Thread 0 comes and waits, thread 1 comes last and raises the semaphore, and both go on.
abbrev two_threads : List ℕ
two_threads = 0 ∷ 0 ∷ 1 ∷ 1 ∷ 0 ∷ []

abbrev both_done : Barrier
both_done = record {
  count = 0;
  sem = record { count = 1; waiting = [] };
  phases = done ∷ done ∷ [];
}

run-two_threads : run two_threads (start 2) ≡ some both_done
unfolding run start Semaphore.down Semaphore.up
run-two_threads = refl

barrier_safe_example :
    ((i j : ℕ) → i < 2 → is_past (phase both_done i) ≡ 1 → phase both_done j ≢ outside)
    × ((i : ℕ) → phase both_done i ≡ outside → (b' : Barrier) × (step i both_done ≡ some b'))
barrier_safe_example =
    barrier_safe 2 two_threads both_done (omega arith) (omega arith) run-two_threads

barrier_live_example :
    (length two_threads ≤ 4 * 2)
    × (((i : ℕ) → step i both_done ≡ none) → (i : ℕ) → phase both_done i ≡ done)
barrier_live_example =
    barrier_live 2 two_threads both_done (omega arith) (omega arith) run-two_threads

-- Thread 0 comes before the future is set, waits, and gets 7.
abbrev get_early : List (Option ℕ)
get_early = some 0 ∷ some 0 ∷ none ∷ none ∷ none ∷ some 0 ∷ some 0 ∷ []

abbrev got_seven : Future
got_seven = record {
  go = record { count = 1; waiting = [] };
  is_ready = true;
  t = 7;
  setting = finished;
  getting =
      Shared.update
        (Shared.update
          (Shared.update
            (Shared.update (Shared.update (λ i. Future.outside) 0 unready) 0 Future.asleep) 0
            Future.passed)
          0 reading)
        0 (got 7);
}

run-get_early : Future.run 7 get_early (new_future 0) ≡ some got_seven
unfolding Future.run new_future set_step get_step wait_for woken Semaphore.down Semaphore.up
run-get_early = refl

future_safe_example :
    ((i x : ℕ) → got_seven.getting i ≡ got x → (x ≡ 7) × (got_seven.is_ready ≡ true))
    × (got_seven.setting ≢ finished → (f' : Future) × (set_step 7 got_seven ≡ some f'))
future_safe_example = future_safe 7 0 get_early got_seven run-get_early

-- Two threads on two cores: thread 2 comes to core 0 and yields to thread 3, whose stack the core has
-- not come to yet.
abbrev some_events : List Threads.Event
some_events =
    thread_event
    ∷ thread_event
    ∷ core_event 0
    ∷ core_event 0
    ∷ core_event 0
    ∷ core_event 0
    ∷ yield_event 0
    ∷ core_event 0
    ∷ core_event 0
    ∷ []

abbrev idle_1 : Tcb
idle_1 = record { is_idle = true; id = 1 }

abbrev worker : ℕ → Tcb
worker i = record { is_idle = false; id = i }

abbrev switching : Core
switching = record {
  idle = record { is_idle = true; id = 0 };
  active = worker 3;
  stage = leaving (worker 2) to_ready;
}

abbrev mid_switch : Threads
mid_switch = record {
  next_id = 4;
  cores =
      switching ∷ record { idle = idle_1; active = idle_1; stage = asking true to_zombies } ∷ [];
  ready = [];
  zombies = [];
  waiting = [];
  deleted = [];
}

run-some_events : Threads.run some_events (threads_init 2) ≡ some mid_switch
unfolding Threads.run threads_init idle_cores new_thread schedule step_core take_from finish call
run-some_events = refl

one_place_example : places 2 mid_switch ≡ is_made 2 (made_after some_events 2) 2
one_place_example = one_place 2 some_events mid_switch (omega arith) run-some_events 2

stacks_apart_example :
    (occurs 2 mid_switch.ready ≡ 0)
    × (occurs 2 mid_switch.zombies ≡ 0)
    × (occurs 2 mid_switch.waiting ≡ 0)
    × (occurs 2 mid_switch.deleted ≡ 0)
    × ((d : ℕ) (other : Core)
        → get_elem? mid_switch.cores d ≡ some other
        → 0 ≢ d
        → (stack_of other).is_idle ≡ false
        → (stack_of other).id ≢ 2)
unfolding stack_of
stacks_apart_example =
    stacks_apart 2 some_events mid_switch (omega arith) run-some_events 0 switching refl refl

leaving-ne-running : leaving (worker 2) to_ready ≢ Threads.running
leaving-ne-running h = cc

asserts_hold_example : (s' : Threads) × (step_core 0 switching mid_switch ≡ some s')
asserts_hold_example =
    asserts_hold 2 some_events mid_switch (omega arith) run-some_events 0 switching refl
      leaving-ne-running

-- Core 0 turns its interrupts off, and both cores lock; core 1 loses, and core 0 unlocks.
abbrev two_cores : List Locks.Event
two_cores =
    flag_event 0 true
    ∷ step_event 0
    ∷ step_event 1
    ∷ step_event 0
    ∷ step_event 1
    ∷ step_event 0
    ∷ step_event 1
    ∷ step_event 0
    ∷ step_event 0
    ∷ []

lock_safe_example :
    let s = Locks.run two_cores (new_lock (λ c. false)) in
    ((i j : ℕ)
      → is_inside (s.cores i).position ≡ true
      → is_inside (s.cores j).position ≡ true
      → i ≡ j)
    × ((i : ℕ) → is_inside (s.cores i).position ≡ true → (s.cores i).is_disabled ≡ true)
    × ((i : ℕ) → (s.cores i).position ≡ Locks.outside → (s.cores i).is_disabled ≡ (s.cores i).own)
lock_safe_example = lock_safe (λ c. false) two_cores
