-- ===== src/Kernel/Threads/Safe.antt =====
-- Every interleaving of the cores leaves each thread in one place.
use os_shell.Common.{
  ℕ, zero, suc, ◌+◌, ◌^◌, ◌≤◌, ◌<◌, ◌≡◌, ◌≢◌, refl, Bool, true, false, Option, none, some, List, [],
  ◌∷◌, arith, ◌==◌, get_elem?, Option-cases, inl, inr, ap, sym, subst, ◌∙◌, All,
}
use os_shell.Kernel.Threads.{
  Tcb, Core, Threads, Stage, running, asking, chosen, leaving, acting, Action, to_ready, to_zombies,
  to_wait, idle_cores, threads_init, finish, take_from, step_core, Event, thread_event, reap_event,
  wake_event, core_event, block_event, step, run,
}
use os_shell.Kernel.Threads.Places.{
  total, le-total, is_thread, occurs, holds, stack_of, places, is_made,
}
use os_shell.Kernel.Threads.Kept.{All-get_elem?, IsOwn, IsKept, IsKeptBy, if_lem}
use os_shell.Kernel.Threads.Keeps.{made_by, step-IsKept}

-- The number of the next thread behind the events.
abbrev pub made_after : List Event → ℕ → ℕ
made_after [] n = n
made_after (e ∷ es) n = made_after es (made_by e n)

le-made_by : (e : Event) (n : ℕ) → (n ≤ made_by e n) × (made_by e n ≤ suc n)
le-made_by thread_event n = (omega arith, omega arith)
le-made_by reap_event n = (omega arith, omega arith)
le-made_by (wake_event k) n = (omega arith, omega arith)
le-made_by (core_event c) n = (omega arith, omega arith)
le-made_by (block_event c must action) n = (omega arith, omega arith)

le-made_after : (es : List Event) (n : ℕ) → n ≤ made_after es n
le-made_after [] n = omega arith
le-made_after (e ∷ es) n = omega (arith, le-made_by e n, le-made_after es (made_by e n))

idle_cores-IsOwn : (n i : ℕ) → All IsOwn (idle_cores n i)
unfolding idle_cores
idle_cores-IsOwn zero i = tt
idle_cores-IsOwn (suc n) i = (
  record { is_idle = refl; is_here = λ e. refl; stage = λ e. (refl, refl) },
  idle_cores-IsOwn n (suc i),
)

holds-idle_cores : (j n i : ℕ) → total (holds j) (idle_cores n i) ≡ 0
unfolding idle_cores total holds
holds-idle_cores j zero i = refl
holds-idle_cores j (suc n) i = omega (arith, holds-idle_cores j n (suc i))

threads_init-IsKept : (procs : ℕ) → IsKept procs procs (threads_init procs)
unfolding threads_init places total
threads_init-IsKept procs = record {
  made = λ i. ground (arith, holds-idle_cores i procs 0);
  own = idle_cores-IsOwn procs 0;
  ready = tt;
  numbered = refl;
}

none-ne-some {ℓ} : {A : Type ℓ} {x : A} → none ≢ some x
none-ne-some h = cc

run-IsKept :
    (procs n : ℕ) (es : List Event) (s s' : Threads)
    → IsKept procs n s
    → procs ≤ n
    → made_after es n + 1 < 2 ^ 32
    → run es s ≡ some s'
    → IsKept procs (made_after es n) s'
unfolding run
run-IsKept procs n [] s s' k le small h = subst (IsKept procs n) (let e : s ≡ s' = cc in e) k
run-IsKept procs n (e ∷ es) s s' k le small h = elim (Option-cases (step e s)) [
  | inl f ↦ absurd (none-ne-some (sym (rw (f, run)) ∙ h))
  | inr (t, f) ↦
      let kept =
        step-IsKept procs n e s k le
          (omega (arith, le-made_by e n, le-made_after es (made_by e n))) in
      run-IsKept procs (made_by e n) es t s' (subst (IsKeptBy procs (made_by e n)) f kept)
        (omega (arith, le-made_by e n)) small (sym (rw (f, run)) ∙ h)
]

two_le_total :
    {A : Type 0} (w : A → ℕ) (xs : List A) (i j : ℕ) (x y : A)
    → i ≢ j
    → get_elem? xs i ≡ some x
    → get_elem? xs j ≡ some y
    → w x + w y ≤ total w xs
unfolding total
two_le_total w [] i j x y ne hx hy = cc
two_le_total w (z ∷ zs) zero zero x y ne hx hy = absurd (ne refl)
two_le_total w (z ∷ zs) zero (suc j) x y ne hx hy =
    let e : z ≡ x = cc in omega (arith, ap w e, le-total w zs j y hy)
two_le_total w (z ∷ zs) (suc i) zero x y ne hx hy =
    let e : z ≡ y = cc in omega (arith, ap w e, le-total w zs i x hx)
two_le_total w (z ∷ zs) (suc i) (suc j) x y ne hx hy =
    omega (arith, two_le_total w zs i j x y (λ e. ne (ap suc e)) hx hy)

stack_of-holds : (i : ℕ) (core : Core) → is_thread i (stack_of core) ≤ holds i core
unfolding stack_of holds
stack_of-holds i core = by_stage core.stage
  where
    by_stage :
        (stage : Stage)
        → let c : Core = record core { stage = stage } in is_thread i (stack_of c) ≤ holds i c
    by_stage running = omega arith
    by_stage (asking must action) = omega arith
    by_stage (chosen next action) = omega arith
    by_stage (leaving me action) = omega arith
    by_stage (acting me action) = omega arith

is_thread_self : (t : Tcb) → t.is_idle ≡ false → is_thread t.id t ≡ 1
is_thread_self t e = ground (arith, e)

-- A step that is made.
abbrev Moves : Option Threads → Type 0
Moves o = (s : Threads) × (o ≡ some s)

take_from-Moves :
    (ts : List Tcb) (c : ℕ) (core : Core) (must : Bool) (action : Action) (s : Threads)
    → IsOwn core
    → Moves (take_from ts c core must action s)
unfolding take_from
take_from-Moves [] c core must action s mine =
    if_lem Moves must _ _
      (λ m.
        if_lem Moves core.active.is_idle _ _
          (λ idle.
            if_lem Moves (core.active.id == core.idle.id) _ _ (λ f. (_, refl))
              (λ f.
                let same = ap (λ t. t.id) (mine.is_here idle) in absurd (ground (arith, f, same))))
          (λ worker. (_, refl)))
      (λ m. (_, refl))
take_from-Moves (t ∷ ts) c core must action s mine = (_, refl)

finish-Moves :
    (me : Tcb) (action : Action) (s : Threads)
    → (me.is_idle ≡ true → action ≡ to_zombies)
    → Moves (finish me action s)
unfolding finish
finish-Moves me to_ready s h = (_, refl)
finish-Moves me to_zombies s h = (_, refl)
finish-Moves me to_wait s h =
    if_lem Moves me.is_idle _ _ (λ idle. let e = h idle in cc) (λ worker. (_, refl))

step_core-Moves :
    (c : ℕ) (idle active : Tcb) (stage : Stage) (s : Threads)
    → IsOwn (record { idle = idle; active = active; stage = stage })
    → stage ≢ running
    → Moves (step_core c (record { idle = idle; active = active; stage = stage }) s)
unfolding step_core
step_core-Moves c idle active running s mine inside = absurd (inside refl)
step_core-Moves c idle active (asking must action) s mine inside =
    take_from-Moves s.ready c _ must action s mine
step_core-Moves c idle active (chosen next action) s mine inside = (_, refl)
step_core-Moves c idle active (leaving me action) s mine inside = (_, refl)
step_core-Moves c idle active (acting me action) s mine inside = finish-Moves me action _ mine.stage

module _ (procs : ℕ) (es : List Event) (s : Threads) (small : made_after es procs + 1 < 2 ^ 32)
    (r : run es (threads_init procs) ≡ some s) where
  always : IsKept procs (made_after es procs) s
  always =
      run-IsKept procs procs es (threads_init procs) s (threads_init-IsKept procs) (omega arith)
        small r

  -- No thread is lost, and none is in two places: after any events on any number of cores, each
  -- thread that was made is in exactly one place, on one core, ready, among the zombies, on a wait
  -- queue or deleted, and no other number is in any; fewer than 2 ^ 32 threads are made.
  pub one_place : (i : ℕ) → places i s ≡ is_made procs (made_after es procs) i
  one_place i = always.made i

  -- While a core runs on the stack of a thread, up to the switch that saves its context, the thread
  -- is not ready, no zombie, on no wait queue and not deleted, and no other core is on that stack;
  -- fewer than 2 ^ 32 threads are made.
  pub stacks_apart :
      (c : ℕ) (core : Core)
      → get_elem? s.cores c ≡ some core
      → (stack_of core).is_idle ≡ false
      → let i = (stack_of core).id in
        (occurs i s.ready ≡ 0)
        × (occurs i s.zombies ≡ 0)
        × (occurs i s.waiting ≡ 0)
        × (occurs i s.deleted ≡ 0)
        × ((d : ℕ) (other : Core)
            → get_elem? s.cores d ≡ some other
            → c ≢ d
            → (stack_of other).is_idle ≡ false
            → (stack_of other).id ≢ i)
  unfolding places
  stacks_apart c core at worker =
      let i = (stack_of core).id in
      let there = le-total (holds i) s.cores c core at in
      let mine = stack_of-holds i core in
      let one = is_thread_self (stack_of core) worker in
      let whole = always.made i in
      (
        ground (arith, there, mine, one, whole),
        ground (arith, there, mine, one, whole),
        ground (arith, there, mine, one, whole),
        ground (arith, there, mine, one, whole),
        λ d other at' ne worker' same.
            let both = two_le_total (holds i) s.cores c d core other ne at at' in
            let theirs = stack_of-holds i other in
            let one' : is_thread i (stack_of other) ≡ 1 =
              rw (← same) (is_thread_self (stack_of other) worker') in
            absurd (ground (arith, both, mine, theirs, one, one', whole)),
      )

  -- The assertion of `block` that an idle thread is on its own core, and that of Semaphore::down that
  -- no idle thread waits, do not fail: a core that has called `block` can make its next step; fewer
  -- than 2 ^ 32 threads are made. The assertions of `block` on interrupts and on SMP::me() are not
  -- part of the model.
  pub asserts_hold :
      (c : ℕ) (core : Core)
      → get_elem? s.cores c ≡ some core
      → core.stage ≢ running
      → (s' : Threads) × (step_core c core s ≡ some s')
  asserts_hold c core at inside =
      step_core-Moves c core.idle core.active core.stage s
        (All-get_elem? IsOwn s.cores c core always.own at) inside
