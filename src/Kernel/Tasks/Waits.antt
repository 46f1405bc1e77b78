-- ===== src/Kernel/Tasks/Waits.antt =====
-- A child that exits is waited for.
use os_shell.Common.{
  ℕ, zero, suc, false, ◌<◌, ◌≡◌, refl, true, Option, none, some, List, [], ◌∷◌, ◌++◌, arith,
  get_elem?, get_elem?-set_self, set, length, ap, ◌∙◌, ==_refl, inl, inr,
}
use os_shell.Kernel.Process.{Process, wait}
use os_shell.Kernel.Process.Fork.{fork}
use os_shell.Kernel.Process.Fork.Child.{fork_lem, wait-fork}
use os_shell.Kernel.Process.Tables.{IsValid, lookup}
use os_shell.Kernel.Tasks.{Tasks, start_child, forked, sys_fork, sys_exit}
use os_shell.Kernel.Threads.{
  new_thread, schedule, Threads, Core, running, asking, to_zombies, put, call,
}
use os_shell.Kernel.Shared.{update}

get_elem?-append :
    {A : Type 0} (xs : List A) (i : ℕ) (x y : A)
    → get_elem? xs i ≡ some x
    → get_elem? (xs ++ y ∷ []) i ≡ some x
get_elem?-append [] i x y h = cc
get_elem?-append (z ∷ zs) zero x y h = h
get_elem?-append (z ∷ zs) (suc i) x y h = get_elem?-append zs i x y h

get_elem?-last : {A : Type 0} (xs : List A) (y : A) → get_elem? (xs ++ y ∷ []) (length xs) ≡ some y
get_elem?-last [] y = refl
get_elem?-last (z ∷ zs) y = get_elem?-last zs y

lt_of_get_elem? :
    {A : Type 0} (xs : List A) (i : ℕ) (x : A) → get_elem? xs i ≡ some x → i < length xs
lt_of_get_elem? [] i x h = cc
lt_of_get_elem? (z ∷ zs) zero x h = omega arith
lt_of_get_elem? (z ∷ zs) (suc i) x h = omega (arith, lt_of_get_elem? zs i x h)

-- The future of the process at `place`, set to `status`.
exit_lem :
    (d status : ℕ) (core : Core) (me : Process) (s : Tasks)
    → get_elem? s.threads.cores d ≡ some core
    → core.stage ≡ running
    → get_elem? s.processes (s.process_of core.active.id) ≡ some me
    → s.outputs me.output ≡ none
    → sys_exit d status s
      ≡ some (record s {
        threads = put d (record core { stage = asking true to_zombies }) s.threads;
        outputs = update s.outputs me.output (some status);
      })
unfolding sys_exit call
exit_lem d status core me s at run mine unset = rw (at, mine, unset, run, sys_exit, call) refl

forked_lem :
    (user_pc esp place : ℕ) (r : ℕ × Option Process × Process) (child : Process) (s : Tasks)
    → r.1 ≡ some child
    → forked user_pc esp place r s
      ≡ (r.0, start_child user_pc esp child (record s { processes = set s.processes place r.2 }))
unfolding forked
forked_lem user_pc esp place (id, none, parent) child s made = cc
forked_lem user_pc esp place (id, some made_child, parent) child s made =
    let e : made_child ≡ child = cc in
    ap
      (λ x. (id, start_child user_pc esp x (record s { processes = set s.processes place parent })))
      e

fork_made :
    (c user_pc esp : ℕ) (core : Core) (parent child : Process) (s : Tasks)
    → get_elem? s.threads.cores c ≡ some core
    → get_elem? s.processes (s.process_of core.active.id) ≡ some parent
    → (fork s.next_output parent).1 ≡ some child
    → sys_fork c user_pc esp s
      ≡ some (
        (fork s.next_output parent).0,
        start_child user_pc esp child (record s {
          processes = set s.processes (s.process_of core.active.id) (fork s.next_output parent).2;
        }),
      )
unfolding sys_fork
fork_made c user_pc esp core parent child s at mine made =
    rw (at, mine, sys_fork)
      (ap some (
        forked_lem user_pc esp (s.process_of core.active.id) (fork s.next_output parent) child s
          made))

-- A child has the future that fork is given.
forked-output :
    (output : ℕ) (parent child : Process)
    → IsValid parent
    → (fork output parent).1 ≡ some child
    → child.output ≡ output
forked-output output parent child v made = elim (fork_lem output parent v) [
  | inl (e, no_child, same, full) ↦ cc
  | inr (k, child', made', low, e, out, looks, valid, moved, valid') ↦
      let same : child ≡ child' = cc in ap (λ p. p.output) same ∙ out
]

-- The fork on core `c`, the exit on core `d` behind any steps of the cores that lead to `th`, and the
-- wait in the process at `place`.
abbrev pub IsWaitedFor : ℕ → ℕ → ℕ → ℕ → ℕ → ℕ → Process → Tasks → Threads → Type 0
IsWaitedFor c d user_pc esp status place parent s th =
    (id : ℕ) × (s1 : Tasks) × (s2 : Tasks) × (parent' : Process) × (q : Process) × (sys_fork c
        user_pc esp s
      ≡ some (id, s1))
    × (s1.threads.ready
        ≡ s.threads.ready ++ record { is_idle = false; id = s.threads.next_id } ∷ [])
    × (s1.user_entries s.threads.next_id ≡ some (user_pc, esp, 0))
    × (sys_exit d status (record s1 { threads = th }) ≡ some s2)
    × (get_elem? s2.processes place ≡ some parent')
    × (wait s2.outputs id parent' ≡ some (0, some status, q))
    × ((j : ℕ) → lookup j q ≡ lookup j parent)

-- A thread of a process whose tables are valid forks, a slot for the child is free, and the child's
-- future has not been set. Then fork returns, a new thread is the last of the ready ones and is to go
-- to user space with the caller's program counter and stack pointer and with eax 0, and once a thread
-- of that number runs, in whatever state the cores are by then, and exits with a status, the parent's
-- wait for the id that fork returned gives the status and leaves the parent with the tables that it
-- had before.
pub fork_exit_wait :
    (c d user_pc esp status : ℕ) (core core' : Core) (parent child : Process) (s : Tasks)
    (th : Threads)
    → get_elem? s.threads.cores c ≡ some core
    → get_elem? s.processes (s.process_of core.active.id) ≡ some parent
    → IsValid parent
    → s.outputs s.next_output ≡ none
    → (fork s.next_output parent).1 ≡ some child
    → get_elem? th.cores d ≡ some core'
    → core'.stage ≡ running
    → core'.active.id ≡ s.threads.next_id
    → IsWaitedFor c d user_pc esp status (s.process_of core.active.id) parent s th
unfolding start_child new_thread schedule
fork_exit_wait c d user_pc esp status core core' parent child s th at mine v fresh made at' run
      new =
    let place = s.process_of core.active.id in
    let r = fork s.next_output parent in
    let s1 : Tasks =
      start_child user_pc esp child (record s { processes = set s.processes place r.2 }) in
    let t : Tasks = record s1 { threads = th } in
    let out : child.output ≡ s.next_output = forked-output s.next_output parent child v made in
    let child_at : get_elem? t.processes (t.process_of core'.active.id) ≡ some child =
      rw (new, ==_refl s.threads.next_id) (get_elem?-last (set s.processes place r.2) child) in
    let unset : t.outputs child.output ≡ none = rw out fresh in
    let s2 : Tasks = record t {
      threads = put d (record core' { stage = asking true to_zombies }) th;
      outputs = update s.outputs child.output (some status);
    } in
    let set_now : s2.outputs s.next_output ≡ some status = rw (out, ==_refl s.next_output) refl in
    let (q, waited, same) =
      wait-fork s2.outputs s.next_output status parent v (rw made refl) set_now in
    (
      r.0,
      s1,
      s2,
      r.2,
      q,
      fork_made c user_pc esp core parent child s at mine made,
      refl,
      rw (==_refl s.threads.next_id) refl,
      exit_lem d status core' child t at' run child_at unset,
      get_elem?-append (set s.processes place r.2) place r.2 child (
          get_elem?-set_self s.processes place r.2 (lt_of_get_elem? s.processes place parent mine)),
      waited,
      same,
    )
