-- ===== src/User/Heap/Split.antt =====
-- `malloc` takes its block out of a free one.
use os_shell.Common.{
  ℕ, ◌+◌, ◌-◌, ◌≤◌, ◌≡◌, true, List, [], ◌∷◌, ◌++◌, arith, leb, if◌then◌else◌, ap, ◌∙◌, sym, inl,
  inr, Bool-cases, subst, append_assoc,
}
use os_shell.User.Heap.{Heap, abs, size, remove, make_taken, make_avail, take_block}
use os_shell.User.Heap.Cells.{Block, ends, mem}
use os_shell.User.Heap.State.{IsOpen, IsHeap, part_at, join_at}
use os_shell.User.Heap.Open.{taken_block, free_block_of, absorb_free}
use os_shell.User.Heap.Kept.{
  Kept, KeptRun, KeptRun-front, KeptRun-behind, Kept-trans, remove-Kept, make_taken-Kept,
  make_avail-Kept,
}
use os_shell.User.Heap.Fill.{make_taken_lem, make_avail_lem}

-- What becomes of a free block of `sz` ints, of which `ints` are taken.
abbrev pub parts : ℕ → ℕ → List Block
parts ints sz =
    if leb 4 (sz - ints)
    then taken_block ints ∷ free_block_of (sz - ints) ∷ []
    else taken_block sz ∷ []

pub take_block_lem :
    (h : Heap) (pre : List Block) (sz : ℕ) (post : List Block) (xs : List ℕ) (ints : ℕ)
    → IsHeap h (pre ++ free_block_of sz ∷ post) xs
    → 4 ≤ ints
    → ints ≤ sz
    → (ys : List ℕ) × IsHeap (take_block (ends 2 pre) ints h) (pre ++ (parts ints sz ++ post)) ys
      × Kept h.array (take_block (ends 2 pre) ints h).array pre (ends 2 pre + sz) post
unfolding take_block
take_block_lem h pre sz post xs ints o big fits =
    let p = ends 2 pre in
    let o1 = part_at h pre (free_block_of sz ∷ post) xs o in
    let sized : size h.array p ≡ sz = ap abs o1.post_tiles.0 ∙ omega arith in
    let (ys, kept, o2) = absorb_free h pre p p sz post xs o1 in
    let h' = remove p h in
    let listed : mem p xs ≡ true = ground (arith, o1.same p) in
    let (k_pre, k_post) = remove-Kept h pre p p (free_block_of sz ∷ post) xs o1 p listed in
    let k1 : Kept h.array h'.array pre (p + sz) post =
      (k_pre, KeptRun-behind h.array h'.array p (free_block_of sz) post k_post) in
    elim (Bool-cases (leb 4 (sz - ints))) [
      | inl split ↦
          let rest : 4 ≤ sz - ints = ground arith in
          let h1 = make_taken p ints h' in
          let o3 = make_taken_lem h' pre p (p + sz) ints post ys o2 big (omega arith) in
          let front = pre ++ taken_block ints ∷ [] in
          let whole : p + sz ≡ p + ints + (sz - ints) = omega arith in
          let o3' = subst (λ hi. IsOpen h1 front (p + ints) hi post ys) whole o3 in
          let o4 = make_avail_lem h1 front (p + ints) (sz - ints) post ys rest o3' in
          let h2 = make_avail (p + ints) (sz - ints) h1 in
          let (f_pre, f_post) = make_avail-Kept h1 front (p + ints) (sz - ints) post ys rest o3' in
          let k2 = make_taken-Kept h' pre p (p + sz) post ys o2 ints (omega arith) (omega arith) in
          let k3 : Kept h1.array h2.array pre (p + sz) post = (
            KeptRun-front h1.array h2.array 2 pre (taken_block ints ∷ []) f_pre,
            subst (λ i. KeptRun h1.array h2.array i post) (sym whole) f_post,
          ) in
          let k =
            Kept-trans h.array h1.array h2.array pre (p + sz) post
              (Kept-trans h.array h'.array h1.array pre (p + sz) post k1 k2) k3 in
          let o5 =
            join_at (make_avail (p + ints) (sz - ints) h1) front (free_block_of (sz - ints) ∷ post)
              ((p + ints) ∷ ys) (p + ints) o4 in
          (
            (p + ints) ∷ ys,
            rw (sized, split)
                (subst (λ bs. IsHeap (make_avail (p + ints) (sz - ints) h1) bs ((p + ints) ∷ ys))
                  (append_assoc pre (taken_block ints ∷ []) (free_block_of (sz - ints) ∷ post)) o5),
            rw (sized, split) k,
          )
      | inr whole ↦
          let o3 =
            make_taken_lem h' pre p (p + sz) sz post ys o2 (omega (arith, big, fits))
              (omega arith) in
          let front = pre ++ taken_block sz ∷ [] in
          let o5 = join_at (make_taken p sz h') front post ys (p + sz) o3 in
          (
            ys,
            rw (sized, whole)
                (subst (λ bs. IsHeap (make_taken p sz h') bs ys)
                  (append_assoc pre (taken_block sz ∷ []) post) o5),
            rw (sized, whole)
                (Kept-trans h.array h'.array (make_taken p sz h').array pre (p + sz) post k1
                  (make_taken-Kept h' pre p (p + sz) post ys o2 sz (omega arith) (omega arith))),
          )
    ]
