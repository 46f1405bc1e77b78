-- ===== src/Kernel/Node/Names.antt =====
-- Looking a name up in a directory, and counting its entries.
use os_shell.Common.{
  ℕ, ◌+◌, ◌^◌, ◌<◌, ◌≤◌, ◌≡◌, ◌≢◌, refl, Option, some, List, [], ◌∷◌, ◌++◌, arith, ap, subst, sym,
  ◌∙◌, length, All, if◌then◌else◌,
}
use os_shell.Common.Text.{IsText, cstr}
use os_shell.Kernel.BlockIo.{BlockIo, IsDevice}
use os_shell.Kernel.Libk.{streq_same, streq_ne, streq_total}
use os_shell.Kernel.Node.{Node, node_io, find_work, find_entry, entry_count, wrap}
use os_shell.Kernel.Node.Entries.{
  Entry, IsEntry, IsDirectory, dir_bytes, length-entry, each, entries_lem,
}

-- Some entry has the name, and none behind it; or no entry has it.
abbrev pub Lists : List ℕ → List Entry → ℕ → Type 0
Lists name es number =
    ((before after : List Entry) (e : Entry)
      → es ≡ before ++ e ∷ after
      → e.name ≡ name
      → All (λ x. x.name ≢ name) after
      → number ≡ e.inode)
    × (All (λ x. x.name ≢ name) es → number ≡ 0)

module _ (name : List ℕ) (text : IsText name) where
  each-absent :
      (es : List Entry) (out : ℕ)
      → All IsEntry es
      → All (λ x. x.name ≢ name) es
      → each (find_work (cstr name)) es out ≡ some out
  unfolding find_work
  each-absent [] out valid absent = refl
  each-absent (e ∷ es) out valid absent =
      rw (streq_ne name e.name [] [] text valid.0.3 (λ p. absent.0 (sym p)))
        (each-absent es out valid.1 absent.1)

  each_total :
      (es : List Entry) (out : ℕ) → (n : ℕ) × (each (find_work (cstr name)) es out ≡ some n)
  unfolding find_work
  each_total [] out = (out, refl)
  each_total (e ∷ es) out =
      let (b, p) = streq_total name e.name [] [] in
      let (n, q) = each_total es (if b then e.inode else out) in (n, rw p q)

  each-last :
      (before after : List Entry) (e : Entry) (out : ℕ)
      → All IsEntry (before ++ e ∷ after)
      → e.name ≡ name
      → All (λ x. x.name ≢ name) after
      → each (find_work (cstr name)) (before ++ e ∷ after) out ≡ some e.inode
  unfolding find_work
  each-last [] after e out valid same last =
      rw (same, streq_same name [] [] text) (each-absent after e.inode valid.1 last)
  each-last (x ∷ before) after e out valid same last =
      let (b, p) = streq_total name x.name [] [] in
      rw p (each-last before after e (if b then x.inode else out) valid.1 same last)

  module _ (ide : BlockIo) (block_size : ℕ) (node : Node)
      (dev : IsDevice (node_io ide block_size node)) (es : List Entry)
      (dir : IsDirectory ide block_size node es) where
    -- In a directory a name that is no entry's gives 0, and any other the node number of the last
    -- entry that has it; the search ends and does not panic.
    pub find_entry_lem :
        (number : ℕ) × (find_entry ide block_size (cstr name) node ≡ some number)
        × Lists name es number
    unfolding find_entry
    find_entry_lem =
        let (n, q) = each_total es 0 in
        (
          n,
          entries_lem ide block_size node dev es dir (find_work (cstr name)) 0 ∙ q,
          (
            λ before after e split same last.
                let r = each-last before after e 0 (subst (All IsEntry) split dir.1) same last in
                cc (q, r, ap (λ l. each (find_work (cstr name)) l 0) split),
            λ absent. cc (q, each-absent es 0 dir.1 absent),
          ),
        )

abbrev counting : ℕ → List ℕ → ℕ → Option ℕ
counting number nm count = some (wrap (count + 1))

each-counting :
    (es : List Entry) (n : ℕ) → n + length es < 2 ^ 32 → each counting es n ≡ some (n + length es)
each-counting [] n h = ap some (omega arith)
each-counting (e ∷ es) n h =
    let w : wrap (n + 1) ≡ n + 1 = omega arith in
    rw w (each-counting es (n + 1) (omega arith) ∙ ap some (omega arith))

length-le-dir_bytes : (es : List Entry) → length es ≤ length (dir_bytes es)
length-le-dir_bytes [] = omega arith
length-le-dir_bytes (e ∷ es) = omega (arith, length-entry e es, length-le-dir_bytes es)

module _ (ide : BlockIo) (block_size : ℕ) (node : Node)
    (dev : IsDevice (node_io ide block_size node)) where
  -- The number of entries of a directory is counted.
  pub entry_count_lem :
      (es : List Entry)
      → IsDirectory ide block_size node es
      → entry_count ide block_size node ≡ some (length es)
  unfolding entry_count
  entry_count_lem es dir =
      let fits = dev.fits in
      rw dir.0 (
        entries_lem ide block_size node dev es dir counting 0
        ∙ each-counting es 0 (omega (arith, length-le-dir_bytes es, dir.2))
        ∙ ap some (omega arith))
