-- ===== src/Kernel/Node/Rounds.antt =====
-- The rounds of the loop over a directory are enough: what it does not end in with them, it does not
-- end in at all.
use os_shell.Common.{
  ℕ, zero, suc, ◌+◌, ◌^◌, ◌<◌, ◌≤◌, ◌≡◌, ◌≢◌, refl, Option, none, some, List, true, arith, ltb,
  ltb→lt, get_or, Bool-cases, inl, inr, ◌>>=◌, ◌==◌, ==_iff,
}
use os_shell.Common.Text.{cstr, word16_at, word32_at}
use os_shell.Kernel.BlockIo.{BlockIo, read_object}
use os_shell.Kernel.Node.{Node, node_io, entries_loop, wrap}

none-ne-some {ℓ} : {A : Type ℓ} {x : A} → none ≢ some x
none-ne-some h = cc

-- What the one call returns, the other returns too.
abbrev AlsoReturns {ℓ} : {A : Type ℓ} → Option A → Option A → Type ℓ
AlsoReturns a b = (s : _) → a ≡ some s → b ≡ some s

bind-AlsoReturns {ℓ κ} :
    {A : Type ℓ} {B : Type κ} (o : Option A) (f g : A → Option B)
    → ((x : A) → o ≡ some x → AlsoReturns (f x) (g x))
    → AlsoReturns (o >>= f) (o >>= g)
bind-AlsoReturns none f g h s e = absurd (none-ne-some e)
bind-AlsoReturns (some x) f g h s e = h x refl s e

bind-ne-some {ℓ κ} :
    {A : Type ℓ} {B : Type κ} (o : Option A) (f : A → Option B) (s : B)
    → ((x : A) → o ≡ some x → f x ≢ some s)
    → (o >>= f) ≢ some s
bind-ne-some none f s h e = none-ne-some e
bind-ne-some (some x) f s h e = h x refl e

module _ {ℓ} {S : Type ℓ} (ide : BlockIo) (block_size : ℕ) (work : ℕ → List ℕ → S → Option S)
    (node : Node) (fits : node.info.size_low < 2 ^ 32) where
  abbrev io : BlockIo
  io = node_io ide block_size node

  abbrev loop : ℕ → ℕ → S → Option S
  loop = entries_loop ide block_size work node

  -- An entry of size 0 keeps the loop in place: it ends with no number of rounds.
  pub zero-ne-some :
      (rounds offset : ℕ) (total : List ℕ) (s s' : S)
      → offset < node.info.size_low
      → read_object io (wrap (offset + 4)) 2 ≡ some total
      → word16_at total 0 ≡ 0
      → loop rounds offset s ≢ some s'
  unfolding entries_loop
  zero-ne-some zero offset total s s' inside read none_on = none-ne-some
  zero-ne-some (suc rounds) offset total s s' inside read none_on =
      let more : ltb offset node.info.size_low ≡ true = ground arith in
      let stay : wrap (offset + word16_at total 0) ≡ offset = omega arith in
      rw (more, entries_loop)
        (bind-ne-some (read_object io offset 4) _ s' (λ inode h1. rw read (
          bind-ne-some (read_object io (wrap (offset + 6)) 1) _ s' (λ len h3.
            bind-ne-some (read_object io (wrap (offset + 8)) (get_or len 0 0)) _ s' (λ name h4.
              bind-ne-some (work (word32_at inode 0) (cstr name) s) _ s'
                (λ t h5. rw stay (zero-ne-some rounds offset total t s' inside read none_on)))))))

  next_round :
      (rounds left offset : ℕ) (total : List ℕ) (t : S)
      → ((k o : ℕ) (u : S)
          → node.info.size_low ≤ o + k
          → AlsoReturns (loop rounds o u) (loop (suc k) o u))
      → offset < node.info.size_low
      → read_object io (wrap (offset + 4)) 2 ≡ some total
      → offset + word16_at total 0 < 2 ^ 32
      → node.info.size_low ≤ offset + left
      → AlsoReturns
          (loop rounds (wrap (offset + word16_at total 0)) t)
          (loop left (wrap (offset + word16_at total 0)) t)
  next_round rounds zero offset total t ih inside read low h = absurd (omega arith)
  next_round rounds (suc k) offset total t ih inside read low h =
      let next : wrap (offset + word16_at total 0) ≡ offset + word16_at total 0 = omega arith in
      elim (Bool-cases (word16_at total 0 == 0)) [
        | inl z ↦
            let size : word16_at total 0 ≡ 0 = (==_iff (word16_at total 0) 0).0 z in
            let stay : wrap (offset + word16_at total 0) ≡ offset = omega arith in
            rw stay (λ s' e. absurd (zero-ne-some rounds offset total t s' inside read size e))
        | inr z ↦
            let ne : word16_at total 0 ≢ 0 = λ e. ground arith in
            rw next (ih k (offset + word16_at total 0) t (omega arith))
      ]

  -- Where an offset does not wrap around, any number of rounds that ends the loop ends it as one
  -- round more than there are bytes left does.
  pub loop-AlsoReturns :
      ((offset : ℕ) (total : List ℕ)
        → offset < node.info.size_low
        → read_object io (wrap (offset + 4)) 2 ≡ some total
        → offset + word16_at total 0 < 2 ^ 32)
      → (rounds left offset : ℕ) (s : S) → node.info.size_low ≤ offset + left
      → AlsoReturns (loop rounds offset s) (loop (suc left) offset s)
  unfolding entries_loop
  loop-AlsoReturns small zero left offset s h = λ s' e. absurd (none-ne-some e)
  loop-AlsoReturns small (suc rounds) left offset s h =
      elim (Bool-cases (ltb offset node.info.size_low)) [
        | inr end ↦ rw (end, entries_loop) (λ s' e. e)
        | inl more ↦
            let inside = ltb→lt offset node.info.size_low more in
            rw (more, entries_loop)
              (bind-AlsoReturns (read_object io offset 4) _ _ (λ inode h1.
                bind-AlsoReturns (read_object io (wrap (offset + 4)) 2) _ _ (λ total h2.
                  bind-AlsoReturns (read_object io (wrap (offset + 6)) 1) _ _ (λ len h3.
                    bind-AlsoReturns (read_object io (wrap (offset + 8)) (get_or len 0 0)) _ _
                      (λ name h4.
                        bind-AlsoReturns (work (word32_at inode 0) (cstr name) s) _ _ (λ t h5.
                          next_round rounds left offset total t
                            (λ k o u le. loop-AlsoReturns small rounds k o u le) inside h2
                            (small offset total inside h2) h))))))
      ]
