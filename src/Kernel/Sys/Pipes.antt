-- ===== src/Kernel/Sys/Pipes.antt =====
-- The calls on pipes: `pipe`, and `write` and `read` of its two ends.
use os_shell.Common.{
  ℕ, ◌≡◌, ◌≢◌, ◌⊎◌, inl, inr, refl, none, some, List, [], ◌∷◌, ◌++◌, ap, sym, ◌∙◌, length,
  get_elem?-length, get_elem?-append,
}
use os_shell.Common.Text.{bytes32, store}
use os_shell.Kernel.File.{pipe_file, read_mode, write_mode}
use os_shell.Kernel.Pipe
use os_shell.Kernel.Pipe.{Pipe}
use os_shell.Kernel.Pipe.Valid.{contents, make-IsValid, contents-make}
use os_shell.Kernel.Process
use os_shell.Kernel.Process.{get_file, minus_one, is_negative, set_file}
use os_shell.Kernel.Process.Tables
use os_shell.Kernel.Process.Tables.{lookup}
use os_shell.Kernel.Sys.NewFile.{Opened-get_file, new_file_lem}
use os_shell.Kernel.Sys.{System, Outcome, returns, sys_pipe, new_file}
use os_shell.Kernel.Sys.Ends.{Ends}

some-ne-none : {x : ℕ} → some x ≢ none
some-ne-none h = cc

-- What `pipe` does: it makes the two ends of an empty pipe and tells their descriptors at `fds`.
abbrev pub Made : ℕ → System → Outcome → Type 0
Made fds s outcome =
    ((s' : System) × (outcome ≡ returns minus_one s'))
    ⊎ ((r w : ℕ) × (p : Pipe) × (s' : System) × (outcome ≡ returns 0 s')
        × Ends s' r w (length s.devices.pipes) p
        × (contents p ≡ [])
        × (s'.memory ≡ store s.memory fds (bytes32 r ++ bytes32 w))
        × ((id : ℕ) → id ≢ r → id ≢ w → lookup id s'.process ≡ lookup id s.process))

-- `pipe` fails or makes the two ends of a new pipe, which is empty, under two descriptors that were
-- not in use, and writes the descriptors to the address that it is given; it changes no other
-- descriptor.
pub sys_pipe_lem :
    (storage : List ℕ) (fds : ℕ) (s : System)
    → length storage ≡ 1024
    → Process.Tables.IsValid s.process
    → Made fds s (sys_pipe storage fds s)
unfolding sys_pipe
sys_pipe_lem storage fds s size valid =
    let k = length s.devices.pipes in
    let pipes = s.devices.pipes ++ Pipe.make storage ∷ [] in
    let s0 : System = record s { devices = record s.devices { pipes = pipes } } in
    let (r, s1) = new_file (pipe_file k read_mode) s0 in
    let (w, s2) = new_file (pipe_file k write_mode) s1 in
    elim (new_file_lem (pipe_file k read_mode) s0 valid) [
      | inl (e, full, same) ↦ inl (s2, rw e)
      | inr first ↦ elim (new_file_lem (pipe_file k write_mode) s1 first.valid) [
        | inl (e, full, same) ↦ inl (s2, rw (first.positive, e))
        | inr second ↦
            let apart : r ≢ w = λ e.
              absurd (
                some-ne-none (sym first.ref ∙ ap (λ fd. get_file fd s1.process) e ∙ second.free)) in
            let s3 : System = record s2 { memory = store s.memory fds (bytes32 r ++ bytes32 w) } in
            inr (
              r,
              w,
              Pipe.make storage,
              s3,
              rw (first.positive, second.positive),
              record {
                read_ref = length s.files;
                write_ref = length s1.files;
                reads =
                    Opened-get_file (pipe_file k write_mode) s1 w s2 first.valid second r apart
                    ∙ first.ref;
                writes = second.ref;
                read_end = get_elem?-append s1.files _ (length s.files) first.file;
                write_end = second.file;
                there = get_elem?-length s.devices.pipes (Pipe.make storage) [];
                valid = make-IsValid storage size;
              },
              contents-make storage,
              refl,
              λ id ne ne'. second.same id ne' ∙ first.same id ne,
            )
      ]
    ]
