-- ===== src/Kernel/Pipe/Fifo.antt =====
-- `write` and `read` against a bounded FIFO of bytes.
use os_shell.Common.{
  ℕ, zero, suc, ◌+◌, ◌-◌, ◌<◌, ◌≡◌, refl, inl, inr, some, Option, List, ◌++◌, ◌∷◌, [], arith,
  length, take, drop, min, ap, sym, ◌∙◌, append_assoc, append-nil, get_or, Bool-cases, ltb, lt→ltb,
  ltb→lt, ltb→le, take-nil, take-cons,
}
use os_shell.Kernel.Pipe.Cells.{length-cells}
use os_shell.Kernel.Semaphore
use os_shell.Kernel.Semaphore.{acquired}
use os_shell.Kernel.Pipe.{
  Pipe, max_buffer_size, put_byte, get_byte, release, write_loop, write, read_loop, read,
}
use os_shell.Kernel.Pipe.Valid.{
  IsRing, IsValid, contents, down_lem, put_byte-IsRing, get_byte-IsRing, contents-put_byte,
  contents-get_byte,
}

-- How many bytes fit.
abbrev pub room : Pipe → ℕ
room p = max_buffer_size - length (contents p)

length-contents : (p : Pipe) → length (contents p) ≡ p.count
length-contents p = length-cells p.buffer p.count p.read_index

contents-nil : (p : Pipe) → p.count ≡ 0 → contents p ≡ []
contents-nil p h = rw h

-- The pipe as the loops see it: with its lock taken.
abbrev taken : Pipe → Pipe
taken p = record p { lock = Semaphore.make 0 }

taken-IsRing : (p : Pipe) → IsValid p → IsRing (taken p)
taken-IsRing p v = ground arith

module _ (me : ℕ) where
  -- One round of each loop, where the loop goes on: the semaphore does not block.
  write_loop_step :
      (b : ℕ) (bs : List ℕ) (n : ℕ) (p : Pipe)
      → IsRing p
      → p.count < max_buffer_size
      → write_loop me (b ∷ bs) n p
        ≡ write_loop me bs (n + 1) (put_byte b (Semaphore.make (max_buffer_size - p.count - 1)) p)
  unfolding write_loop put_byte
  write_loop_step b bs n p v h = rw (
    lt→ltb p.count max_buffer_size h,
    v.writable,
    down_lem me (max_buffer_size - p.count) (omega arith),
    write_loop,
  )

  read_loop_step :
      (k : ℕ) (out : List ℕ) (p : Pipe)
      → IsRing p
      → 0 < p.count
      → read_loop me (suc k) out p
        ≡ read_loop me k
            (out ++ get_or p.buffer p.read_index 0 ∷ [])
            (get_byte (Semaphore.make (p.count - 1)) p)
  unfolding read_loop get_byte
  read_loop_step k out p v h = rw (lt→ltb 0 p.count h, v.readable, down_lem me p.count h, read_loop)

  -- What a run of the loop of `write` over `bytes` does to `p`.
  abbrev Wrote : List ℕ → ℕ → Pipe → Option (ℕ × Pipe) → Type 0
  Wrote bytes n p result =
      (p' : Pipe) × (result ≡ some (n + min (length bytes) (max_buffer_size - p.count), p'))
      × IsRing p'
      × (contents p' ≡ contents p ++ take (max_buffer_size - p.count) bytes)
      × (p'.lock ≡ p.lock)

  write_loop-Wrote :
      (bytes : List ℕ) (n : ℕ) (p : Pipe) → IsRing p → Wrote bytes n p (write_loop me bytes n p)
  unfolding write_loop put_byte
  write_loop-Wrote [] n p v =
      (p, ap (λ k. some (k, p)) (omega arith), v, rw (take-nil, append-nil), refl)
  write_loop-Wrote (b ∷ bs) n p v = elim (Bool-cases (ltb p.count max_buffer_size)) [
    | inr full ↦
        let none_left : max_buffer_size - p.count ≡ 0 = omega (arith, ltb→le _ _ full) in
        (
          p,
          rw (full, write_loop) (ap (λ k. some (k, p)) (omega arith)),
          v,
          rw none_left (rw append-nil),
          refl,
        )
    | inl below ↦
        let h = ltb→lt p.count max_buffer_size below in
        let s = Semaphore.make (max_buffer_size - p.count - 1) in
        let (p', e, v', c, l) =
          write_loop-Wrote bs (n + 1) (put_byte b s p) (put_byte-IsRing b p v h) in
        (
          p',
          write_loop_step b bs n p v h ∙ e ∙ ap (λ k. some (k, p')) (omega arith),
          v',
          rw
              (
                take-cons (max_buffer_size - p.count) b bs (omega arith),
                c,
                contents-put_byte b s p v h,
                append_assoc,
              )
              (ap (λ k. contents p ++ b ∷ take k bs) (omega arith)),
          l,
        )
  ]

  -- What a run of the loop of `read` for at most `k` bytes does to `p`.
  abbrev HasRead : ℕ → List ℕ → Pipe → Option (List ℕ × Pipe) → Type 0
  HasRead k out p result =
      (p' : Pipe) × (result ≡ some (out ++ take k (contents p), p'))
      × IsRing p'
      × (contents p' ≡ drop k (contents p))
      × (p'.lock ≡ p.lock)

  read_loop-HasRead :
      (k : ℕ) (out : List ℕ) (p : Pipe) → IsRing p → HasRead k out p (read_loop me k out p)
  unfolding read_loop get_byte
  read_loop-HasRead zero out p v = (p, rw append-nil, v, refl, refl)
  read_loop-HasRead (suc k) out p v = elim (Bool-cases (ltb 0 p.count)) [
    | inr empty ↦
        let gone : contents p ≡ [] = contents-nil p (omega (arith, ltb→le _ _ empty)) in
        (
          p,
          rw (empty, read_loop) (rw gone (ap (λ l. some (l, p)) (sym (append-nil out)))),
          v,
          rw gone,
          refl,
        )
    | inl some_left ↦
        let h = ltb→lt 0 p.count some_left in
        let s = Semaphore.make (p.count - 1) in
        let b = get_or p.buffer p.read_index 0 in
        let (p', e, v', c, l) =
          read_loop-HasRead k (out ++ b ∷ []) (get_byte s p) (get_byte-IsRing p v h) in
        (
          p',
          read_loop_step k out p v h
              ∙ e
              ∙ ap (λ l. some (l, p'))
                  (append_assoc out (b ∷ []) (take k (contents (get_byte s p))))
              ∙ ap (λ l. some (out ++ take (suc k) l, p')) (sym (contents-get_byte s p v h)),
          v',
          c ∙ ap (drop (suc k)) (sym (contents-get_byte s p v h)),
          l,
        )
  ]

  -- From a valid pipe whose lock is free, `write` does not block, whoever calls it: it takes as many
  -- bytes as there is room for, returns their number, puts exactly these bytes behind the others in
  -- their order, and leaves the pipe valid with its lock free.
  pub write_lem :
      (bytes : List ℕ) (p : Pipe)
      → IsValid p
      → (p' : Pipe) × (write me bytes p ≡ some (min (length bytes) (room p), p'))
        × IsValid p'
        × (contents p' ≡ contents p ++ take (room p) bytes)
  unfolding write release Semaphore.up
  write_lem bytes p v =
      let (p', e, v', c, l) = write_loop-Wrote bytes 0 (taken p) (taken-IsRing p v) in
      (
        release p',
        ground (arith, down_lem me 1, e, length-contents p),
        ground (arith, l, v'),
        ground (arith, c, length-contents p),
      )

  -- From a valid pipe whose lock is free, `read` does not block, whoever calls it: it returns the
  -- oldest bytes, `size` of them or all that there are, leaves exactly the others in their order,
  -- and leaves the pipe valid with its lock free.
  pub read_lem :
      (size : ℕ) (p : Pipe)
      → IsValid p
      → (p' : Pipe) × (read me size p ≡ some (take size (contents p), p'))
        × IsValid p'
        × (contents p' ≡ drop size (contents p))
  unfolding read release Semaphore.up
  read_lem size p v =
      let (p', e, v', c, l) = read_loop-HasRead size [] (taken p) (taken-IsRing p v) in
      (release p', ground (arith, down_lem me 1, e), ground (arith, l, v'), c)
