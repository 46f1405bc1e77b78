-- ===== src/Kernel/File.antt =====
-- Open files: the subclasses of `File` (kernel/file.h) in kernel/file_ext.h, kernel/PipeFile.h and
-- kernel/u8250.h. Results are 32-bit patterns. `none` is a panic, or a call that blocks.
pub mod Reads
pub mod Ends
use os_shell.Common.{
  ℕ, zero, suc, ◌+◌, ◌-◌, ◌^◌, Bool, true, false, not, ◌||◌, Option, none, some, List, [], ◌∷◌,
  ◌++◌, ltb, leb, ◌==◌, if◌then◌else◌, get_elem?, set, length, ◌>>=◌,
}
use os_shell.Common.Text.{bytes_at}
use os_shell.Kernel.BlockIo.{BlockIo, bytes, failed, panic, read_all}
use os_shell.Kernel.Node.{Node, node_io, wrap, is_dir, is_file}
use os_shell.Kernel.Pipe
use os_shell.Kernel.Pipe.{Pipe}
use os_shell.Kernel.Process.{minus_one}

-- A pipe is known by its place in the list of all pipes.
pub data File : Type 0 where
  console_file : File
  actual_file : Node → ℕ → File
  pipe_file : ℕ → ℕ → File

-- `READ` and `WRITE`, the modes of a pipe's end.
abbrev pub read_mode : ℕ
read_mode = 0

abbrev pub write_mode : ℕ
write_mode = 1

-- The console is what is still to be typed, and what has been put on it.
pub record Devices : Type 0 where
  pub pipes : List Pipe
  pub input : List ℕ
  pub output : List ℕ

abbrev pub user_space : ℕ
user_space = 0x80000000

-- A `size_t` that is passed on as an `int`: a negative one leaves nothing to do.
abbrev pub int_size : ℕ → ℕ
int_size n = if ltb n (2 ^ 31) then n else 0

abbrev pub open_file : Node → File
open_file node = actual_file node 0

pub is_file_file : File → Bool
is_file_file (actual_file node offset) = is_file node.info
is_file_file console_file = true
is_file_file (pipe_file pipe mode) = true

pub is_directory : File → Bool
is_directory (actual_file node offset) = is_dir node.info
is_directory console_file = false
is_directory (pipe_file pipe mode) = false

pub size : File → ℕ
size (actual_file node offset) = node.info.size_low
size console_file = 0x7FFFFFFF
size (pipe_file pipe mode) = minus_one

pub seek : ℕ → File → ℕ × File
seek offset (actual_file node old) = (offset, actual_file node offset)
seek offset console_file = (offset, console_file)
seek offset (pipe_file pipe mode) = (minus_one, pipe_file pipe mode)

-- `bytes_read`: what is asked for, or what is left of the file.
at_most : ℕ → ℕ → ℕ
at_most rest n = if ltb rest n then rest else n

-- The result, the bytes that `buffer` receives, and the file and the devices.
abbrev pub Read : Type 0
Read = ℕ × List ℕ × File × Devices

-- `it->get()` waits for a byte.
read_console : ℕ → Devices → Option Read
read_console zero d = some (0, [], console_file, d)
read_console (suc n) d = elim d.input [
  | [] ↦ none
  | c ∷ input ↦ some (1, c ∷ [], console_file, record d { input = input })
]

module _ (me : ℕ) where
  read_pipe : ℕ → ℕ → ℕ → Devices → Option Read
  read_pipe pipe mode n d =
      if not (mode == read_mode) then some (minus_one, [], pipe_file pipe mode, d) else (do
        p ← get_elem? d.pipes pipe
        got ← Pipe.read me (int_size n) p
        some
            (length got.0, got.0, pipe_file pipe mode, record d { pipes = set d.pipes pipe got.1 }))

  write_pipe : ℕ → ℕ → (ℕ → ℕ) → ℕ → Devices → Option (ℕ × Devices)
  write_pipe pipe mode buf n d = if not (mode == write_mode) then some (minus_one, d) else (do
    p ← get_elem? d.pipes pipe
    put ← Pipe.write me (bytes_at buf 0 (int_size n)) p
    some (put.0, record d { pipes = set d.pipes pipe put.1 }))

  -- `buf` has the bytes of the buffer.
  pub write : (ℕ → ℕ) → ℕ → File → Devices → Option (ℕ × Devices)
  unfolding write_pipe
  write buf n (actual_file node offset) d = some (minus_one, d)
  write buf n console_file d =
      if n == 0 then some (0, d) else some (1, record d { output = d.output ++ buf 0 ∷ [] })
  write buf n (pipe_file pipe mode) d = write_pipe pipe mode buf n d

  module _ (ide : BlockIo) (block_size : ℕ) where
    -- The result of `read_all` is not looked at.
    read_actual : ℕ → ℕ → Node → ℕ → Devices → Option Read
    read_actual buffer n node offset d =
        if ltb buffer user_space
        then some (minus_one, [], actual_file node offset, d)
        else if leb node.info.size_low offset || n == 0
        then some (0, [], actual_file node offset, d)
        else (let bytes_read = at_most (node.info.size_low - offset) n in
            let moved = actual_file node (wrap (offset + bytes_read)) in
            elim (read_all (node_io ide block_size node) offset bytes_read) [
              | some (bytes got) ↦ some (bytes_read, got, moved, d)
              | some failed ↦ some (bytes_read, [], moved, d)
              | some panic ↦ none
              | none ↦ none
            ])

    pub read : ℕ → ℕ → File → Devices → Option Read
    unfolding read_console read_pipe read_actual
    read buffer n (actual_file node offset) d = read_actual buffer n node offset d
    read buffer n console_file d = read_console n d
    read buffer n (pipe_file pipe mode) d = read_pipe pipe mode n d
