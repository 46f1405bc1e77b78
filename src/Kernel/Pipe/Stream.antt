-- ===== src/Kernel/Pipe/Stream.antt =====
-- Whole histories of calls on one pipe, by any threads in any order.
use os_shell.Common.{
  ℕ, ◌≡◌, refl, some, none, Option, List, ◌++◌, ◌∷◌, [], ◌∙◌, ap, sym, append_assoc, append-nil,
  take, drop, length, min, take-min, take-append-drop,
}
use os_shell.Kernel.Pipe.{Pipe, write, read}
use os_shell.Kernel.Pipe.Valid.{IsValid, contents}
use os_shell.Kernel.Pipe.Fifo.{room, write_lem, read_lem}

-- A call, with the thread that makes it.
pub data Call : Type 0 where
  write_call : ℕ → List ℕ → Call
  read_call : ℕ → ℕ → Call

pub record Trace : Type 0 where
  pub accepted : List ℕ
  pub delivered : List ℕ
  pub pipe : Pipe

-- The calls one after another: the bytes that the writes said they took, those that the reads
-- delivered, and the pipe at the end. `none` is a call that blocks.
unfoldable pub run : List Call → Pipe → Option Trace
run [] p = some (record { accepted = []; delivered = []; pipe = p })
run (write_call me bytes ∷ calls) p = elim (write me bytes p) [
  | none ↦ none
  | some (n, p') ↦ elim (run calls p') [
    | none ↦ none
    | some t ↦ some (record t { accepted = take n bytes ++ t.accepted })
  ]
]
run (read_call me size ∷ calls) p = elim (read me size p) [
  | none ↦ none
  | some (out, p') ↦ elim (run calls p') [
    | none ↦ none
    | some t ↦ some (record t { delivered = out ++ t.delivered })
  ]
]

abbrev pub Ran : Pipe → Option Trace → Type 0
Ran p result =
    (t : Trace) × (result ≡ some t)
    × IsValid t.pipe
    × (contents p ++ t.accepted ≡ t.delivered ++ contents t.pipe)

-- No history of calls blocks, and none loses, doubles, invents or reorders a byte: what was in the
-- pipe and what the writes took is, in this order, what the reads delivered and what is left.
pub stream_lem : (calls : List Call) (p : Pipe) → IsValid p → Ran p (run calls p)
unfolding run
stream_lem [] p v =
    (record { accepted = []; delivered = []; pipe = p }, refl, v, append-nil (contents p))
stream_lem (write_call me bytes ∷ calls) p v =
    let (p', e, v', c) = write_lem me bytes p v in
    let (t, r, vt, s) = stream_lem calls p' v' in
    (
      record t { accepted = take (min (length bytes) (room p)) bytes ++ t.accepted },
      rw (e, r, run),
      vt,
      rw (take-min (room p) bytes) (
          sym (append_assoc (contents p) (take (room p) bytes) t.accepted)
          ∙ ap (λ l. l ++ t.accepted) (sym c)
          ∙ s),
    )
stream_lem (read_call me size ∷ calls) p v =
    let (p', e, v', c) = read_lem me size p v in
    let (t, r, vt, s) = stream_lem calls p' v' in
    (
      record t { delivered = take size (contents p) ++ t.delivered },
      rw (e, r, run),
      vt,
      ap (λ l. l ++ t.accepted) (sym (take-append-drop size (contents p)))
          ∙ append_assoc (take size (contents p)) (drop size (contents p)) t.accepted
          ∙ ap (λ l. take size (contents p) ++ l) (ap (λ l. l ++ t.accepted) (sym c) ∙ s)
          ∙ sym (append_assoc (take size (contents p)) t.delivered (contents t.pipe)),
    )
