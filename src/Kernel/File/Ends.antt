-- ===== src/Kernel/File/Ends.antt =====
-- Reads and writes of the ends of a pipe.
use os_shell.Common.{
  ℕ, zero, suc, ◌+◌, ◌^◌, ◌<◌, ◌≡◌, refl, some, ◌++◌, arith, ap, length, min, take, drop, set,
  get_elem?,
}
use os_shell.Common.Text.{bytes_at}
use os_shell.Kernel.BlockIo.{BlockIo}
use os_shell.Kernel.File.{
  Devices, pipe_file, read_mode, write_mode, read, write, read_pipe, write_pipe, int_size,
}
use os_shell.Kernel.Pipe.{Pipe}
use os_shell.Kernel.Pipe.Valid.{IsValid, contents}
use os_shell.Kernel.Pipe.Fifo.{room, write_lem, read_lem}

length-bytes_at : (m : ℕ → ℕ) (a n : ℕ) → length (bytes_at m a n) ≡ n
length-bytes_at m a zero = refl
length-bytes_at m a (suc n) = ap suc (length-bytes_at m (a + 1) n)

module _ (me : ℕ) where
  pub write-pipe_file :
      (buf : ℕ → ℕ) (n k : ℕ) (d : Devices) (p : Pipe)
      → n < 2 ^ 31
      → get_elem? d.pipes k ≡ some p
      → IsValid p
      → (q : Pipe) × (write me buf n (pipe_file k write_mode) d
          ≡ some (min n (room p), record d { pipes = set d.pipes k q }))
        × IsValid q
        × (contents q ≡ contents p ++ take (room p) (bytes_at buf 0 n))
  unfolding write write_pipe
  write-pipe_file buf n k d p small there valid =
      let (q, e, v, c) = write_lem me (bytes_at buf 0 n) p valid in
      let sz : int_size n ≡ n = ground arith in
      (q, rw there (rw sz (rw e (rw (length-bytes_at buf 0 n)))), v, c)

  pub read-pipe_file :
      (ide : BlockIo) (block_size buffer n k : ℕ) (d : Devices) (p : Pipe)
      → n < 2 ^ 31
      → get_elem? d.pipes k ≡ some p
      → IsValid p
      → (q : Pipe) × (read me ide block_size buffer n (pipe_file k read_mode) d
          ≡ some (
            length (take n (contents p)),
            take n (contents p),
            pipe_file k read_mode,
            record d { pipes = set d.pipes k q },
          ))
        × IsValid q
        × (contents q ≡ drop n (contents p))
  unfolding read read_pipe
  read-pipe_file ide block_size buffer n k d p small there valid =
      let (q, e, v, c) = read_lem me n p valid in
      let sz : int_size n ≡ n = ground arith in (q, rw there (rw sz (rw e)), v, c)
