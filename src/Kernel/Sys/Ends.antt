-- ===== src/Kernel/Sys/Ends.antt =====
-- A write into a pipe's end, and a read from its other end.
use os_shell.Common.{
  ℕ, zero, suc, ◌+◌, ◌^◌, ◌<◌, ◌≡◌, ◌≢◌, some, List, [], ◌∷◌, ◌++◌, arith, ap, sym, ◌∙◌, length,
  min, take, drop, set, get_elem?, get_elem?-set_self, get_elem?-set_ne, ==_ne, false,
}
use os_shell.Common.Text.{bytes_at, store}
use os_shell.Kernel.File.{pipe_file, read_mode, write_mode}
use os_shell.Kernel.File.Ends.{write-pipe_file, read-pipe_file}
use os_shell.Kernel.Pipe
use os_shell.Kernel.Pipe.{Pipe}
use os_shell.Kernel.Pipe.Valid
use os_shell.Kernel.Pipe.Valid.{contents, make-IsValid, contents-make}
use os_shell.Kernel.Pipe.Fifo.{room}
use os_shell.Kernel.Process.{get_file}
use os_shell.Kernel.Sys.{System, returns, bad_buffer, sys_write, sys_read}

-- Descriptors `r` and `w` are the ends of pipe `k`, which is `p`.
pub record Ends (s : System) (r w k : ℕ) (p : Pipe) : Type 0 where
  pub read_ref : ℕ
  pub write_ref : ℕ
  pub reads : get_file r s.process ≡ some read_ref
  pub writes : get_file w s.process ≡ some write_ref
  pub read_end : get_elem? s.files read_ref ≡ some (pipe_file k read_mode)
  pub write_end : get_elem? s.files write_ref ≡ some (pipe_file k write_mode)
  pub there : get_elem? s.devices.pipes k ≡ some p
  pub valid : Pipe.Valid.IsValid p

lt_of_get_elem? {ℓ} :
    {A : Type ℓ} (xs : List A) (i : ℕ) {x : A} → get_elem? xs i ≡ some x → i < length xs
lt_of_get_elem? [] i h = cc
lt_of_get_elem? (x ∷ xs) zero h = omega arith
lt_of_get_elem? (x ∷ xs) (suc i) h = omega (arith, lt_of_get_elem? xs i h)

modes-ne : {k : ℕ} → some (pipe_file k read_mode) ≢ some (pipe_file k write_mode)
modes-ne h = ground arith

module _ (me : ℕ) (s : System) (r w k : ℕ) (p : Pipe) (ends : Ends s r w k p) where
  -- The state with another pipe in place of `p`.
  abbrev pub with_pipe : Pipe → System
  with_pipe q = record s { devices = record s.devices { pipes = set s.devices.pipes k q } }

  with_pipe-Ends : (q : Pipe) → Pipe.Valid.IsValid q → Ends (with_pipe q) r w k q
  with_pipe-Ends q v = record {
    read_ref = ends.read_ref;
    write_ref = ends.write_ref;
    reads = ends.reads;
    writes = ends.writes;
    read_end = ends.read_end;
    write_end = ends.write_end;
    there = get_elem?-set_self s.devices.pipes k q (lt_of_get_elem? s.devices.pipes k ends.there);
    valid = v;
  }

  -- A read stores the end that it reads from again.
  read-Ends :
      (memory : ℕ → ℕ) (q : Pipe)
      → Pipe.Valid.IsValid q
      → Ends
          (record (with_pipe q) {
            memory = memory;
            files = set s.files ends.read_ref (pipe_file k read_mode);
          })
          r
          w
          k
          q
  read-Ends memory q v =
      let apart : ends.read_ref ≢ ends.write_ref =
        λ e. absurd (modes-ne (sym ends.read_end ∙ ap (get_elem? s.files) e ∙ ends.write_end)) in
      record {
        read_ref = ends.read_ref;
        write_ref = ends.write_ref;
        reads = ends.reads;
        writes = ends.writes;
        read_end =
            get_elem?-set_self s.files ends.read_ref (pipe_file k read_mode)
              (lt_of_get_elem? s.files ends.read_ref ends.read_end);
        write_end =
            get_elem?-set_ne s.files ends.read_ref ends.write_ref (pipe_file k read_mode) apart
            ∙ ends.write_end;
        there =
            get_elem?-set_self s.devices.pipes k q (lt_of_get_elem? s.devices.pipes k ends.there);
        valid = v;
      }

  -- A write to the pipe from user space.
  sys_write-pipe :
      (buf n : ℕ)
      → bad_buffer buf ≡ false
      → n < 2 ^ 31
      → (q : Pipe) × (sys_write me w buf n s ≡ returns (min n (room p)) (with_pipe q))
        × Pipe.Valid.IsValid q
        × (contents q ≡ contents p ++ take (room p) (bytes_at (λ i. s.memory (buf + i)) 0 n))
  unfolding sys_write
  sys_write-pipe buf n good small =
      let buffer = λ (i : ℕ). s.memory (buf + i) in
      let (q, e, v, c) = write-pipe_file me buffer n k s.devices p small ends.there ends.valid in
      (q, rw (good, ends.writes, ends.write_end, e), v, c)

  -- A read of the pipe into user space.
  sys_read-pipe :
      (buf n : ℕ)
      → bad_buffer buf ≡ false
      → n < 2 ^ 31
      → r ≢ 1
      → (q : Pipe) × (sys_read me r buf n s
          ≡ returns (length (take n (contents p))) (record (with_pipe q) {
            memory = store s.memory buf (take n (contents p));
            files = set s.files ends.read_ref (pipe_file k read_mode);
          }))
        × Pipe.Valid.IsValid q
        × (contents q ≡ drop n (contents p))
  unfolding sys_read
  sys_read-pipe buf n good small other =
      let (q, e, v, c) =
        read-pipe_file me s.fs.ide s.fs.block_size buf n k s.devices p small ends.there
          ends.valid in
      (q, rw (good, ==_ne r 1 other, ends.reads, ends.read_end, e), v, c)

  -- What a write of `n` bytes from `buf` and then a read of `m` bytes to `to` come to.
  abbrev pub Transferred : ℕ → ℕ → ℕ → ℕ → Type 0
  Transferred buf n to m =
      let sent = contents p ++ take (room p) (bytes_at (λ i. s.memory (buf + i)) 0 n) in
      (s1 s2 : System) × (q : Pipe) × (sys_write me w buf n s ≡ returns (min n (room p)) s1)
      × (sys_read me r to m s1 ≡ returns (length (take m sent)) s2)
      × Ends s2 r w k q
      × (s2.memory ≡ store s.memory to (take m sent))
      × (contents q ≡ drop m sent)

module _ (me : ℕ) (s : System) (r w k : ℕ) (p : Pipe) (ends : Ends s r w k p) where
  -- Two descriptors that are the ends of a valid pipe, of which the one to read is not 1: a write
  -- of fewer than 2 ^ 31 bytes from user space takes as many as there is room for and returns their
  -- number, and a read of fewer than 2 ^ 31 bytes into user space then puts what the pipe held, and
  -- behind it the bytes taken, into the memory, as many as it asks for or as there are, and leaves
  -- the rest in the pipe.
  pub pipe_transfer :
      (buf n to m : ℕ)
      → bad_buffer buf ≡ false
      → bad_buffer to ≡ false
      → n < 2 ^ 31
      → m < 2 ^ 31
      → r ≢ 1
      → Transferred me s r w k p ends buf n to m
  pipe_transfer buf n to m good good' small small' other =
      let (q, e, v, c) = sys_write-pipe me s r w k p ends buf n good small in
      let s1 = with_pipe me s r w k p ends q in
      let ends1 = with_pipe-Ends me s r w k p ends q v in
      let (q2, e2, v2, c2) = sys_read-pipe me s1 r w k q ends1 to m good' small' other in
      let ends2 = read-Ends me s1 r w k q ends1 (store s.memory to (take m (contents q))) q2 v2 in
      let s2 = record (with_pipe me s1 r w k q ends1 q2) {
        memory = store s.memory to (take m (contents q));
        files = set s.files ends1.read_ref (pipe_file k read_mode);
      } in
      (
        s1,
        s2,
        q2,
        e,
        e2 ∙ ap (λ l. returns (length (take m l)) s2) c,
        ends2,
        ap (λ l. store s.memory to (take m l)) c,
        c2 ∙ ap (drop m) c,
      )
