-- ===== src/Kernel/Threads/Keeps.antt =====
-- What every step of the cores keeps.
use os_shell.Common.{
  ℕ, suc, ◌+◌, ◌%◌, ◌^◌, ◌≤◌, ◌<◌, ◌≡◌, refl, Bool, false, Option, none, some, List, [], ◌∷◌, arith,
  get_elem?, ◌>>=◌, ap,
}
use os_shell.Kernel.Threads.{
  Tcb, Core, Threads, Stage, running, asking, chosen, leaving, acting, Action, remove_at, schedule,
  new_thread, delete_zombie, wake_at, step_core, call, Event, thread_event, reap_event, wake_event,
  core_event, block_event, step,
}
use os_shell.Kernel.Threads.Places.{total, is_thread, occurs, holds, places, Kept, occurs-remove_at}
use os_shell.Kernel.Threads.Kept.{
  All-get_elem?, IsOwn, IsKept, IsKeptBy, schedule-IsKept, finish-IsKept,
}
use os_shell.Kernel.Threads.Held.{put-IsKept, take_from-IsKept, left-IsKeptBut}

-- The number of the next thread behind an event.
abbrev pub made_by : Event → ℕ → ℕ
made_by thread_event n = suc n
made_by _ n = n

module _ (procs n : ℕ) where
  step_core-IsKept :
      (c : ℕ) (idle active : Tcb) (stage : Stage) (s : Threads)
      → IsKept procs n s
      → let core : Core = record { idle = idle; active = active; stage = stage } in
        get_elem? s.cores c ≡ some core → IsKeptBy procs n (step_core c core s)
  unfolding step_core holds
  step_core-IsKept c idle active running s k at = tt
  step_core-IsKept c idle active (asking must action) s k at =
      take_from-IsKept procs n s.ready c _ must action s k at refl refl
  step_core-IsKept c idle active (chosen next action) s k at =
      let mine = All-get_elem? IsOwn s.cores c _ k.own at in
      put-IsKept procs n c (record { idle = idle; active = active; stage = chosen next action })
        (record { idle = idle; active = next; stage = leaving active action }) s k at
        (λ i. omega arith)
        (record { is_idle = mine.is_idle; is_here = mine.stage.1; stage = mine.stage.0 })
  step_core-IsKept c idle active (leaving me action) s k at =
      let mine = All-get_elem? IsOwn s.cores c _ k.own at in
      put-IsKept procs n c (record { idle = idle; active = active; stage = leaving me action })
        (record { idle = idle; active = active; stage = acting me action }) s k at (λ i. refl)
        (record { is_idle = mine.is_idle; is_here = mine.is_here; stage = mine.stage })
  step_core-IsKept c idle active (acting me action) s k at =
      finish-IsKept procs n me _ (left-IsKeptBut procs n c _ me action s k at refl) action

  -- Only a thread in its own code calls `block`.
  call-IsKept :
      (c : ℕ) (idle active : Tcb) (stage : Stage) (must : Bool) (action : Action) (s : Threads)
      → IsKept procs n s
      → let core : Core = record { idle = idle; active = active; stage = stage } in
        get_elem? s.cores c ≡ some core → IsKeptBy procs n (call c core must action s)
  unfolding call holds
  call-IsKept c idle active running must action s k at =
      let mine = All-get_elem? IsOwn s.cores c _ k.own at in
      put-IsKept procs n c (record { idle = idle; active = active; stage = running })
        (record { idle = idle; active = active; stage = asking must action }) s k at (λ i. refl)
        (record {
          is_idle = mine.is_idle;
          is_here = mine.is_here;
          stage = λ idle. let f = mine.stage in cc;
        })
  call-IsKept c idle active (asking must' action') must action s k at = tt
  call-IsKept c idle active (chosen next action') must action s k at = tt
  call-IsKept c idle active (leaving me action') must action s k at = tt
  call-IsKept c idle active (acting me action') must action s k at = tt

  new_thread-IsKept :
      (s : Threads)
      → IsKept procs n s
      → procs ≤ n
      → n + 1 < 2 ^ 32
      → IsKept procs (suc n) (new_thread s)
  unfolding new_thread places
  new_thread-IsKept s k le small =
      schedule-IsKept procs (suc n) (record { is_idle = false; id = s.next_id })
        (record s { next_id = (s.next_id + 1) % 2 ^ 32 })
        (record {
          made = λ i. ground (arith, k.made i, k.numbered);
          own = k.own;
          ready = k.ready;
          numbered = let h = k.numbered in omega arith;
        })

  reap-IsKept :
      (ts : List Tcb) (s : Threads)
      → IsKept procs n s
      → s.zombies ≡ ts
      → IsKeptBy procs n (delete_zombie (record s { zombies = ts }))
  unfolding delete_zombie places total
  reap-IsKept [] s k e = tt
  reap-IsKept (t ∷ ts) s k e = record {
    made = λ i. omega (arith, k.made i, ap (total (is_thread i)) e);
    own = k.own;
    ready = k.ready;
    numbered = k.numbered;
  }

  wake-IsKept : (at : ℕ) (s : Threads) → IsKept procs n s → IsKeptBy procs n (wake_at at s)
  unfolding wake_at places
  wake-IsKept at s k = removed (remove_at at s.waiting) (λ i. occurs-remove_at i at s.waiting)
    where
      removed :
          (r : Option (Tcb × List Tcb))
          → ((i : ℕ) → Kept i r (occurs i s.waiting))
          → IsKeptBy procs n (r >>= λ p. some (schedule p.0 (record s { waiting = p.1 })))
      removed none h = tt
      removed (some (t, ts)) h =
          schedule-IsKept procs n t (record s { waiting = ts })
            (record {
              made = λ i. omega (arith, k.made i, h i);
              own = k.own;
              ready = k.ready;
              numbered = k.numbered;
            })

  -- A step of a core that exists.
  on_core :
      (f : Core → Option Threads) (s : Threads) (o : Option Core)
      → ((core : Core) → o ≡ some core → IsKeptBy procs n (f core))
      → IsKeptBy procs n (o >>= f)
  on_core f s none h = tt
  on_core f s (some core) h = h core refl

  pub step-IsKept :
      (e : Event) (s : Threads)
      → IsKept procs n s
      → procs ≤ n
      → n + 1 < 2 ^ 32
      → IsKeptBy procs (made_by e n) (step e s)
  unfolding step
  step-IsKept thread_event s k le small = new_thread-IsKept s k le small
  step-IsKept reap_event s k le small = reap-IsKept s.zombies s k refl
  step-IsKept (wake_event at) s k le small = wake-IsKept at s k
  step-IsKept (core_event c) s k le small =
      on_core (λ core. step_core c core s) s (get_elem? s.cores c)
        (λ core at. step_core-IsKept c core.idle core.active core.stage s k at)
  step-IsKept (block_event c must action) s k le small =
      on_core (λ core. call c core must action s) s (get_elem? s.cores c)
        (λ core at. call-IsKept c core.idle core.active core.stage must action s k at)
