-- ===== src/Kernel/Shared/Histories.antt =====
-- Whole histories of operations on `Shared` variables.
use os_shell.Common.{
  ℕ, ◌+◌, ◌^◌, ◌≤◌, ◌<◌, ◌≡◌, refl, true, ◌&&◌, Option, none, some, List, [], ◌∷◌, ◌++◌, arith, ltb,
  ltb→lt, length, length-append, length-set, get_or, set, ap, Bool-cases, inl, inr,
}
use os_shell.Kernel.Shared.{
  Store, no_objects, ptr, put, add, drop, same_ptr, construct, construct_null, make, construct_copy,
  construct_move, destroy, assign_raw, assign, assign_move, Op, make_op, null_op, copy_op, move_op,
  destroy_op, assign_op, assign_raw_op, assign_move_op, apply, run,
}
use os_shell.Kernel.Shared.Tally.{one, tally, tally-append, tally_one, one-le-tally}
use os_shell.Kernel.Shared.Counted.{Counted, no_objects-Counted, same-Counted, drop-handles}
use os_shell.Kernel.Shared.Counts.{
  ptr-IsLive, make-Counted, construct_copy-Counted, construct_move-Counted, destroy-Counted,
  assign_raw-Counted, assign_move-Counted,
}

add-handles : (p : Option ℕ) (s : Store) → (add p s).handles ≡ s.handles
unfolding add
add-handles none s = refl
add-handles (some o) s = refl

make_size : (s : Store) → length (make s).handles ≤ length s.handles + 1
unfolding make add
make_size s = omega (arith, length-append s.handles (some s.made ∷ []))

null-Counted : (s : Store) → Counted s → Counted (construct_null s)
unfolding construct_null
null-Counted s c =
    same-Counted s (s.handles ++ none ∷ []) c
      (λ o. omega (arith, tally-append o s.handles (none ∷ []), tally_one o none))

copy_size : (rhs : ℕ) (s : Store) → length (construct_copy rhs s).handles ≤ length s.handles + 1
unfolding construct_copy
copy_size rhs s =
    rw (add-handles (ptr s rhs) (construct (ptr s rhs) s))
      (omega (arith, length-append s.handles (ptr s rhs ∷ [])))

move_size : (rhs : ℕ) (s : Store) → length (construct_move rhs s).handles ≤ length s.handles + 1
unfolding construct_move
move_size rhs s =
    omega (
      arith,
      length-append (set s.handles rhs none) (ptr s rhs ∷ []),
      length-set s.handles rhs none,
    )

destroy_size : (h : ℕ) (s : Store) → length (destroy h s).handles ≤ length s.handles + 1
unfolding destroy
destroy_size h s =
    omega
      (arith, length-set (drop (ptr s h) s).1.handles h none, ap length (drop-handles (ptr s h) s))

assign_raw_size :
    (h : ℕ) (p : Option ℕ) (s : Store) → length (assign_raw h p s).handles ≤ length s.handles + 1
unfolding assign_raw
assign_raw_size h p s =
    let left = (drop (ptr s h) s).1 in
    elim (Bool-cases (same_ptr (ptr s h) p)) [
      | inl e ↦ rw e (omega arith)
      | inr e ↦ rw e (
          rw (add-handles p (put left h p))
            (omega (arith, length-set left.handles h p, ap length (drop-handles (ptr s h) s))))
    ]

assign_move_size :
    (h rhs : ℕ) (s : Store) → length (assign_move h rhs s).handles ≤ length s.handles + 1
unfolding assign_move
assign_move_size h rhs s =
    let left = (drop (ptr s h) s).1.handles in
    let p = (drop (ptr s h) s).0 in
    let q = get_or (set left h p) rhs none in
    omega (
      arith,
      length-set (set (set left h p) h q) rhs none,
      length-set (set left h p) h q,
      length-set left h p,
      ap length (drop-handles (ptr s h) s),
    )

-- The invariant, and that there is at most one variable more than before.
abbrev Kept : Store → Store → Type 0
Kept s s' = Counted s' × (length s'.handles ≤ length s.handles + 1)

abbrev IsInside : ℕ → ℕ → Store → Type 0
IsInside h rhs s = (h < length s.handles) × (rhs < length s.handles)

assign_raw-Kept :
    (h rhs : ℕ) (s : Store)
    → Counted s
    → length s.handles + 1 < 2 ^ 32
    → IsInside h rhs s
    → Kept s (assign_raw h (ptr s rhs) s)
assign_raw-Kept h rhs s c room inside = (
  assign_raw-Counted s h (ptr s rhs) c inside.0 (omega arith) (ptr-IsLive s rhs),
  assign_raw_size h (ptr s rhs) s,
)

assign-Kept :
    (h rhs : ℕ) (s : Store)
    → Counted s
    → length s.handles + 1 < 2 ^ 32
    → IsInside h rhs s
    → Kept s (assign h rhs s)
unfolding assign
assign-Kept h rhs s c room inside = assign_raw-Kept h rhs s c room inside

apply-Kept : (op : Op) (s : Store) → Counted s → length s.handles + 1 < 2 ^ 32 → Kept s (apply op s)
unfolding apply
apply-Kept make_op s c room = (make-Counted s c room, make_size s)
apply-Kept null_op s c room = (null-Counted s c, omega (arith, length-append s.handles (none ∷ [])))
apply-Kept (copy_op rhs) s c room = elim (Bool-cases (ltb rhs (length s.handles))) [
  | inr e ↦ rw e (c, omega arith)
  | inl e ↦ rw e (construct_copy-Counted s rhs c room, copy_size rhs s)
]
apply-Kept (move_op rhs) s c room = elim (Bool-cases (ltb rhs (length s.handles))) [
  | inr e ↦ rw e (c, omega arith)
  | inl e ↦ rw e (construct_move-Counted s rhs c (ltb→lt _ _ e), move_size rhs s)
]
apply-Kept (destroy_op h) s c room = elim (Bool-cases (ltb h (length s.handles))) [
  | inr e ↦ rw e (c, omega arith)
  | inl e ↦ rw e (destroy-Counted s h c (ltb→lt _ _ e) (omega arith), destroy_size h s)
]
apply-Kept (assign_op h rhs) s c room =
    elim (Bool-cases (ltb h (length s.handles) && ltb rhs (length s.handles))) [
      | inr e ↦ rw e (c, omega arith)
      | inl e ↦ rw e (assign-Kept h rhs s c room (ground arith))
    ]
apply-Kept (assign_raw_op h rhs) s c room =
    elim (Bool-cases (ltb h (length s.handles) && ltb rhs (length s.handles))) [
      | inr e ↦ rw e (c, omega arith)
      | inl e ↦ rw e (assign_raw-Kept h rhs s c room (ground arith))
    ]
apply-Kept (assign_move_op h rhs) s c room =
    elim (Bool-cases (ltb h (length s.handles) && ltb rhs (length s.handles))) [
      | inr e ↦ rw e (c, omega arith)
      | inl e ↦ rw e (
        assign_move-Counted s h rhs c (ground arith) (ground arith) (omega arith),
        assign_move_size h rhs s,
      )
    ]

run-Counted :
    (ops : List Op) (s : Store)
    → Counted s
    → length s.handles + length ops < 2 ^ 32
    → Counted (run ops s)
unfolding run
run-Counted [] s c room = c
run-Counted (op ∷ ops) s c room =
    let (c', size) = apply-Kept op s c (omega arith) in
    run-Counted ops (apply op s) c' (omega arith)

-- After any history of operations the reference count of each object is the number of variables that
-- refer to it, an object is alive exactly if there is such a variable, and so what a variable refers
-- to has not been deleted; fewer than 2 ^ 32 operations.
pub run_lem :
    (ops : List Op)
    → length ops < 2 ^ 32
    → let s = run ops no_objects in
      ((o : ℕ) → s.ref_count o ≡ tally o s.handles)
      × ((o : ℕ) → s.alive o ≡ ltb 0 (tally o s.handles))
      × ((h o : ℕ) → ptr s h ≡ some o → s.alive o ≡ true)
run_lem ops room =
    let c = run-Counted ops no_objects no_objects-Counted (omega arith) in
    let s = run ops no_objects in
    (c.count, c.live, λ h o e. ground (arith, c.live o, one-le-tally o s.handles h, ap (one o) e))
