-- ===== src/Kernel/Ext2/Paths.antt =====
-- Walking a path is walking its parts.
use os_shell.Common.{
  ℕ, zero, suc, ◌+◌, ◌<◌, ◌≤◌, ◌≡◌, ◌≢◌, refl, Option, none, some, List, [], ◌∷◌, ◌++◌, arith,
  subst, sym, ◌∙◌, length, length-append, All-append, ◌>>=◌, if◌then◌else◌, false, leb, ◌==◌, ==_ne,
  Bool-cases, inl, inr, Option-cases,
}
use os_shell.Common.Text.{IsText}
use os_shell.Kernel.Node.{Node}
use os_shell.Kernel.Ext2.{Ext2, copy_part, find_part, find_round, find_loop, find}
use os_shell.Kernel.Ext2.Parts.{
  split_from, parts_of, walk, piece, behind, walk-none, walk-append, skip_slashes-trim,
  parts_of-trim, IsText-trim, IsText-behind, length-trim, length-behind, trim-cases,
  split_from-piece, copy_part-piece, parts_of-slash,
}

module _ (fs : Ext2) where
  -- One round on a path that begins with a part, by what the loop does.
  find_round-walk :
      (again : Option Node → List ℕ → Option (Option Node)) (node : Node) (c : ℕ)
      (path rest : List ℕ)
      → IsText (c ∷ path)
      → (c == b'/') ≡ false
      → ((next : Node)
          → again (some next) (behind path ++ 0 ∷ rest)
            ≡ walk fs (some next) (split_from [] (behind path)))
      → find_round fs again (some node) (c ∷ path ++ 0 ∷ rest)
        ≡ walk fs (some node) (split_from [] (c ∷ path))
  unfolding find_round walk
  find_round-walk again node c path rest text e ih =
      let nz : (c == 0) ≡ false = ==_ne c 0 text.0 in
      let zero_add : 0 + suc (length (piece path)) ≡ suc (length (piece path)) = omega arith in
      let copied : copy_part 0 (c ∷ path ++ 0 ∷ rest) ≡ (
          if leb (suc (length (piece path))) 256
          then some (c ∷ piece path, behind path ++ 0 ∷ rest)
          else none) =
        copy_part-piece 0 (c ∷ path) rest text (omega arith) ∙ rw e (rw zero_add) in
      let parts : split_from [] (c ∷ path) ≡ (c ∷ piece path) ∷ split_from [] (behind path) =
        split_from-piece [] (c ∷ path) ∙ rw e in
      rw parts (
        rw (nz, find_round)
          (rw copied (elim (Bool-cases (leb (suc (length (piece path))) 256)) [
            | inr long ↦ rw long
            | inl short ↦ rw short (elim (Option-cases (find_part fs node (c ∷ piece path))) [
              | inl fault ↦ rw fault
              | inr (none, found) ↦ rw found
              | inr (some next, found) ↦ rw found (ih next)
            ])
          ])))

  find_round_end :
      (again : Option Node → List ℕ → Option (Option Node)) (node : Node) (rest : List ℕ)
      → find_round fs again (some node) (0 ∷ rest) ≡ walk fs (some node) (split_from [] [])
  unfolding find_round walk split_from
  find_round_end again node rest = refl

  find_loop-walk :
      (rounds : ℕ) (current : Option Node) (path rest : List ℕ)
      → IsText path
      → length path < rounds
      → find_loop fs rounds current (path ++ 0 ∷ rest) ≡ walk fs current (split_from [] path)
  unfolding find_loop
  find_loop-walk zero current path rest text h = absurd (omega arith)
  find_loop-walk (suc rounds) none path rest text h =
      rw (skip_slashes-trim path rest, walk-none fs (split_from [] path))
  find_loop-walk (suc rounds) (some node) path rest text h =
      rw (skip_slashes-trim path rest, parts_of-trim path)
        (elim (trim-cases path) [
          | inl e ↦ rw e (find_round_end (find_loop fs rounds) node rest)
          | inr (c, tail, e, ns) ↦
              let size : length (c ∷ tail) ≤ length path =
                subst (λ p. length p ≤ length path) e (length-trim path) in
              let text' = subst IsText e (IsText-trim path text) in
              rw e (
                find_round-walk (find_loop fs rounds) node c tail rest text' ns (λ next.
                  find_loop-walk rounds (some next) (behind tail) rest (IsText-behind tail text'.1)
                    (omega (arith, length-behind tail))))
        ])

  -- The walk along the bytes of a path, from a node or from null, gives what the walk along its parts,
  -- the pieces between its slashes that are not empty, one directory after the other, gives: a node,
  -- null, or nothing. Nothing stands for a call that does not come back: a failed assertion, a part
  -- of more than 256 bytes among them, or the loop over a directory with an entry of size 0.
  pub find_lem :
      (current : Option Node) (path rest : List ℕ)
      → IsText path
      → find fs current (path ++ 0 ∷ rest) ≡ walk fs current (parts_of path)
  unfolding find parts_of
  find_lem current path rest text =
      find_loop-walk (suc (length (path ++ 0 ∷ rest))) current path rest text
        (omega (arith, length-append path (0 ∷ rest)))

module _ (fs : Ext2) where
  -- A path in two halves with a slash between them is the second from where the first leads; a null
  -- reference or a failed assertion of the first remains.
  pub find_slash :
      (current : Option Node) (xs ys rest : List ℕ)
      → IsText xs
      → IsText ys
      → find fs current (xs ++ b'/' ∷ ys ++ 0 ∷ rest)
        ≡ (find fs current (xs ++ 0 ∷ []) >>= λ next. find fs next (ys ++ 0 ∷ rest))
  find_slash current xs ys rest tx ty =
      let text = All-append (λ c. c ≢ 0) xs (b'/' ∷ ys) (tx, (λ z. absurd (omega arith), ty)) in
      let joined : parts_of (xs ++ b'/' ∷ ys) ≡ parts_of xs ++ parts_of ys =
        unfold parts_of in parts_of-slash [] xs ys in
      rw
        (
          find_lem fs current (xs ++ b'/' ∷ ys) rest text,
          joined,
          walk-append fs current (parts_of xs) (parts_of ys),
          find_lem fs current xs [] tx,
        )
        (elim (Option-cases (walk fs current (parts_of xs))) [
          | inl fault ↦ rw fault
          | inr (next, there) ↦ rw there (sym (find_lem fs next ys rest ty))
        ])
