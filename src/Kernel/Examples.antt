-- ===== src/Kernel/Examples.antt =====
-- The theorems on the kernel at concrete inputs.
use os_shell.Common.{
  ℕ, ◌≡◌, refl, none, some, List, [], ◌∷◌, arith, length-replicate, replicate, if◌then◌else◌, ◌==◌,
  false, true,
}
use os_shell.Kernel.Semaphore
use os_shell.Kernel.Semaphore.Fair
use os_shell.Kernel.Semaphore.Fair.{Op, down_op, up_op, Gate, fair_lem}
use os_shell.Kernel.Queue.{Queue, Links, add}
use os_shell.Kernel.Queue.Fifo.{Holds, add-Holds}
use os_shell.Kernel.Pipe
use os_shell.Kernel.Pipe.{Pipe}
use os_shell.Kernel.Pipe.Valid
use os_shell.Kernel.Pipe.Valid.{contents, make-IsValid}
use os_shell.Kernel.Pipe.Stream.{Call, write_call, read_call, Ran, stream_lem}
use os_shell.Kernel.Pipe.Stream
use os_shell.Kernel.Process.{Process, close, n_child, free_slot}
use os_shell.Kernel.Process.Tables
use os_shell.Kernel.Process.Close.{Closed, close_lem}
use os_shell.Kernel.BlockIo.{BlockIo, IsDevice, bytes, read_all}
use os_shell.Kernel.BlockIo.Blocks.{slice}
use os_shell.Kernel.BlockIo.Ranges.{read_all_lem}
use os_shell.Kernel.Tasks.{Tasks}
use os_shell.Kernel.Tasks.Waits.{IsWaitedFor, fork_exit_wait}
use os_shell.Kernel.Threads.{Threads, running}
use os_shell.Kernel.PhysMem.{Memory, alloc_frame, dealloc_frame}
use os_shell.Kernel.PhysMem.Valid.{IsValid, disown, Allocated}
use os_shell.Kernel.PhysMem.Frames.{alloc_frame_lem, dealloc_frame_lem}
use os_shell.Kernel.Process.Tables.{lookup}
use os_shell.Kernel.Process.Fork.{fork, copy_some, copy_all}
use os_shell.Kernel.Process.Fork.Child.{Forks, fork_lem}

-- Threads 5, 6 and 7 at a semaphore of value 1: the third of them waits.
abbrev three_downs : List Op
three_downs = down_op 5 ∷ down_op 6 ∷ up_op ∷ down_op 7 ∷ []

fair_lem_example :
    let g = Fair.run three_downs (record { sem = Semaphore.make 1; passed = [] }) in
    (g.passed ≡ 5 ∷ 6 ∷ []) × (g.sem.waiting ≡ 7 ∷ []) × (g.sem.count ≡ 0)
fair_lem_example = fair_lem 1 three_downs (omega arith)

-- A queue that holds the elements 3 and 4.
abbrev q34 : Queue × Links
q34 = (record { first = 3; last = 4 }, λ a. if a == 3 then 4 else 0)

q34-Holds : Holds q34.0 q34.1 (3 ∷ 4 ∷ [])
q34-Holds = ground arith

add-Holds_example : Holds (add 9 q34.0 q34.1).0 (add 9 q34.0 q34.1).1 (3 ∷ 4 ∷ 9 ∷ [])
add-Holds_example =
    add-Holds 9 q34.0 q34.1 (3 ∷ 4 ∷ []) (omega arith) (omega arith, (omega arith, tt)) q34-Holds

-- A fresh pipe.
abbrev fresh_pipe : Pipe
fresh_pipe = Pipe.make (replicate 1024 0)

fresh_pipe-IsValid : Valid.IsValid fresh_pipe
fresh_pipe-IsValid = make-IsValid (replicate 1024 0) (length-replicate {A = ℕ} 1024 0)

abbrev two_calls : List Call
two_calls = write_call 5 (104 ∷ 105 ∷ []) ∷ read_call 6 1 ∷ []

stream_lem_example : Ran fresh_pipe (Stream.run two_calls fresh_pipe)
stream_lem_example = stream_lem two_calls fresh_pipe fresh_pipe-IsValid

-- A process with three files, a semaphore and a child.
abbrev some_process : Process
some_process = record {
  files = some 11 ∷ some 12 ∷ some 13 ∷ replicate 7 none;
  sems = some 21 ∷ replicate 9 none;
  children = some 31 ∷ replicate 9 none;
  output = 40;
}

some_process-IsValid : Tables.IsValid some_process
some_process-IsValid = record { files_size = refl; sems_size = refl; children_size = refl }

close_lem_example : Closed 2 some_process (close 2 some_process)
close_lem_example = close_lem 2 some_process some_process-IsValid

-- A device of ten bytes in blocks of four.
abbrev small_device : BlockIo
small_device = record {
  block_size = 4;
  size_in_bytes = 10;
  read_block = λ n. some (n ∷ n ∷ n ∷ n ∷ []);
}

small_device-IsDevice : IsDevice small_device
small_device-IsDevice = record {
  positive = omega arith;
  there = λ n h. refl;
  whole = λ n h. refl;
  fits = omega arith;
}

read_all_lem_example : read_all small_device 3 100 ≡ some (bytes (slice small_device 3 7))
read_all_lem_example = read_all_lem small_device small_device-IsDevice 3 100 (omega arith)

-- Two frames from 4096 on.
abbrev two_frames : Memory
two_frames = record { words = λ a. 7; first_free = 0; avail = 4096; limit = 12288 }

two_frames-IsValid : IsValid 4096 (λ a. false) two_frames []
two_frames-IsValid = ground arith

alloc_frame_lem_example : Allocated 4096 (λ a. false) two_frames [] (alloc_frame two_frames)
alloc_frame_lem_example = alloc_frame_lem 4096 (λ a. false) two_frames [] two_frames-IsValid

-- The first of them is owned.
abbrev one_owned : Memory
one_owned = record two_frames { avail = 8192 }

one_owned-IsValid : IsValid 4096 (λ a. a == 4096) one_owned []
one_owned-IsValid = record {
  chain = refl;
  free_frames = tt;
  owned_frames = λ a h. ground arith;
  above_null = omega arith;
  start_in = omega arith;
  start_at = refl;
  avail_at = refl;
  limit_at = refl;
  avail_in = omega arith;
  limit_in = omega arith;
}

dealloc_frame_lem_example :
    (m' : Memory) × (dealloc_frame 4096 one_owned ≡ some m')
    × ((a : ℕ) → m'.words a ≡ (if a == 4096 then 0 else 7))
    × IsValid 4096 (disown (λ a. a == 4096) 4096) m' (4096 ∷ [])
dealloc_frame_lem_example =
    dealloc_frame_lem 4096 (λ a. a == 4096) 4096 one_owned [] one_owned-IsValid refl

fork_lem_example : Forks 50 some_process (fork 50 some_process)
fork_lem_example = fork_lem 50 some_process some_process-IsValid

abbrev some_child : Process
some_child = record {
  files = some_process.files;
  sems = some_process.sems;
  children = replicate n_child none;
  output = 50;
}

some_process_forks : (fork 50 some_process).1 ≡ some some_child
unfolding fork free_slot copy_some copy_all
some_process_forks = refl

-- Thread `i` on the only core.
abbrev one_thread : ℕ → Threads
one_thread i = record {
  next_id = 2;
  cores =
      record {
        idle = record { is_idle = true; id = 0 };
        active = record { is_idle = false; id = i };
        stage = running;
      }
      ∷ [];
  ready = [];
  zombies = [];
  waiting = [];
  deleted = [];
}

abbrev one_task : Tasks
one_task = record {
  threads = one_thread 1;
  processes = some_process ∷ [];
  process_of = λ i. 0;
  outputs = λ i. none;
  next_output = 50;
  user_entries = λ i. none;
}

fork_exit_wait_example : IsWaitedFor 0 0 4096 8192 3 0 some_process one_task (one_thread 2)
fork_exit_wait_example =
    fork_exit_wait 0 0 4096 8192 3 _ _ some_process some_child one_task (one_thread 2) refl refl
      some_process-IsValid refl some_process_forks refl refl refl
