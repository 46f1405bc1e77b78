-- ===== src/Kernel/Pipe.antt =====
-- kernel/Pipe.h: a byte pipe over a circular buffer. Both operations hold the pipe's lock from
-- beginning to end, so a call is one step of the system; `none` is a thread that blocks inside.
pub mod Cells
pub mod Valid
pub mod Fifo
pub mod Stream
use os_shell.Common.{
  ℕ, zero, suc, ◌+◌, ◌-◌, ◌%◌, Option, none, some, Bool, true, false, List, [], ◌∷◌, ◌++◌, ltb, set,
  get_or, replicate,
}
use os_shell.Kernel.Semaphore
use os_shell.Kernel.Semaphore.{Semaphore, Down, acquired, blocked}

abbrev pub max_buffer_size : ℕ
max_buffer_size = 1024

pub record Pipe : Type 0 where
  pub buffer : List ℕ
  pub read_index : ℕ
  pub write_index : ℕ
  pub count : ℕ
  pub read_sem : Semaphore
  pub write_sem : Semaphore
  pub lock : Semaphore

-- The constructor. The buffer's bytes are whatever stood in the memory.
pub make : List ℕ → Pipe
make storage = record {
  buffer = storage;
  read_index = 0;
  write_index = 0;
  count = 0;
  read_sem = Semaphore.make 0;
  write_sem = Semaphore.make max_buffer_size;
  lock = Semaphore.make 1;
}

-- The body of the loop of `write`, from behind `write_sem->down()`, which left `s`.
pub put_byte : ℕ → Semaphore → Pipe → Pipe
put_byte b s p = record p {
  buffer = set p.buffer p.write_index b;
  count = p.count + 1;
  write_index = (p.write_index + 1) % max_buffer_size;
  write_sem = s;
  read_sem = (Semaphore.up p.read_sem).1;
}

-- The body of the loop of `read`, from behind `read_sem->down()`, less the copy into `data`.
pub get_byte : Semaphore → Pipe → Pipe
get_byte s p = record p {
  count = p.count - 1;
  read_index = (p.read_index + 1) % max_buffer_size;
  read_sem = s;
  write_sem = (Semaphore.up p.write_sem).1;
}

pub release : Pipe → Pipe
release p = record p { lock = (Semaphore.up p.lock).1 }

module _ (me : ℕ) where
  -- The list is `data[i..size)`.
  pub write_loop : List ℕ → ℕ → Pipe → Option (ℕ × Pipe)
  write_loop [] bytes_written p = some (bytes_written, p)
  write_loop (b ∷ bs) bytes_written p = elim (ltb p.count max_buffer_size) [
    | false ↦ some (bytes_written, p)
    | true ↦ elim (Semaphore.down me p.write_sem) [
      | blocked s ↦ none
      | acquired s ↦ write_loop bs (bytes_written + 1) (put_byte b s p)
    ]
  ]

  pub write : List ℕ → Pipe → Option (ℕ × Pipe)
  write bytes p = elim (Semaphore.down me p.lock) [
    | blocked s ↦ none
    | acquired s ↦ elim (write_loop bytes 0 (record p { lock = s })) [
      | none ↦ none
      | some (n, p') ↦ some (n, release p')
    ]
  ]

  -- The number is `size - i`; the list holds the bytes `data[0..i)`.
  pub read_loop : ℕ → List ℕ → Pipe → Option (List ℕ × Pipe)
  read_loop zero out p = some (out, p)
  read_loop (suc k) out p = elim (ltb 0 p.count) [
    | false ↦ some (out, p)
    | true ↦ elim (Semaphore.down me p.read_sem) [
      | blocked s ↦ none
      | acquired s ↦ read_loop k (out ++ get_or p.buffer p.read_index 0 ∷ []) (get_byte s p)
    ]
  ]

  -- The result is the bytes that `data` receives; their number is what the source returns.
  pub read : ℕ → Pipe → Option (List ℕ × Pipe)
  read size p = elim (Semaphore.down me p.lock) [
    | blocked s ↦ none
    | acquired s ↦ elim (read_loop size [] (record p { lock = s })) [
      | none ↦ none
      | some (out, p') ↦ some (out, release p')
    ]
  ]
