-- ===== src/Kernel/Tasks.antt =====
-- The calls that make and end processes: fork and exit of kernel/sys.cc, over Kernel.Process and
-- Kernel.Threads. A future is known by its number, and is what it has been set to: how its threads wait
-- is in Kernel.Future. The copy of the address space is left out.
pub mod Waits
use os_shell.Common.{
  ℕ, suc, true, Option, none, some, List, [], ◌∷◌, ◌++◌, get_elem?, set, length, ◌>>=◌,
}
use os_shell.Kernel.Process.{Process}
use os_shell.Kernel.Process.Fork.{fork}
use os_shell.Kernel.Shared.{update}
use os_shell.Kernel.Threads.{Threads, Core, to_zombies, new_thread, call}

-- `user_entries` has the program counter, the stack pointer and the value of eax that a new thread goes to
-- user space with.
pub record Tasks : Type 0 where
  pub threads : Threads
  pub processes : List Process
  pub process_of : ℕ → ℕ
  pub outputs : ℕ → Option ℕ
  pub next_output : ℕ
  pub user_entries : ℕ → Option (ℕ × ℕ × ℕ)

-- `thread(child, ...)`, where `child` is the last of the processes.
unfoldable pub start_child : ℕ → ℕ → Process → Tasks → Tasks
start_child user_pc esp child s = record s {
  threads = new_thread s.threads;
  processes = s.processes ++ child ∷ [];
  process_of = update s.process_of s.threads.next_id (length s.processes);
  next_output = suc s.next_output;
  user_entries = update s.user_entries s.threads.next_id (some (user_pc, esp, 0));
}

-- What `fork` of the process at `place` comes to.
unfoldable pub forked : ℕ → ℕ → ℕ → ℕ × Option Process × Process → Tasks → ℕ × Tasks
forked user_pc esp place (id, none, parent) s = (id, s)
forked user_pc esp place (id, some child, parent) s =
    (id, start_child user_pc esp child (record s { processes = set s.processes place parent }))

-- `fork` by the thread that is active on core `c`.
unfoldable pub sys_fork : ℕ → ℕ → ℕ → Tasks → Option (ℕ × Tasks)
sys_fork c user_pc esp s = do
  core ← get_elem? s.threads.cores c
  let place = s.process_of core.active.id
  parent ← get_elem? s.processes place
  some (forked user_pc esp place (fork s.next_output parent) s)

-- `exit`: `output->set(status)`, with its assertion, and `stop()`.
unfoldable pub sys_exit : ℕ → ℕ → Tasks → Option Tasks
sys_exit c status s = do
  core ← get_elem? s.threads.cores c
  me ← get_elem? s.processes (s.process_of core.active.id)
  elim (s.outputs me.output) [
    | some value ↦ none
    | none ↦ do
      threads ← call c core true to_zombies s.threads
      some (record s { threads = threads; outputs = update s.outputs me.output (some status) })
  ]
