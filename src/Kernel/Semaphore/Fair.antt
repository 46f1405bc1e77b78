-- ===== src/Kernel/Semaphore/Fair.antt =====
-- Histories of calls on one semaphore.
use os_shell.Common.{
  ℕ, suc, ◌+◌, ◌-◌, ◌^◌, ◌<◌, ◌≤◌, ◌≡◌, refl, ◌⊎◌, inl, inr, none, some, List, ◌++◌, ◌∷◌, [], arith,
  length, take, drop, append-nil, append_assoc, length-append, ◌∙◌, sym, ap, take-append_exact,
  drop-append_exact, take_all, drop_all, Bool-cases, ltb, ltb→lt,
}
use os_shell.Kernel.Semaphore.{Semaphore, make, acquired, blocked, down, wake, up}

pub data Op : Type 0 where
  down_op : ℕ → Op
  up_op : Op

-- A semaphore with the threads that have come through their `down`, in the order in which they did.
pub record Gate : Type 0 where
  pub sem : Semaphore
  pub passed : List ℕ

step : Gate → Op → Gate
step g (down_op me) = elim (down me g.sem) [
  | acquired s ↦ record { sem = s; passed = g.passed ++ me ∷ [] }
  | blocked s ↦ record g { sem = s }
]
step g up_op =
    let (next, s) = up g.sem in
    elim next [
      | none ↦ record g { sem = s }
      | some t ↦ record { sem = s; passed = g.passed ++ t ∷ [] }
    ]

unfoldable pub run : List Op → Gate → Gate
unfolding step
run [] g = g
run (op ∷ ops) g = run ops (step g op)

-- The threads that called `down`, in the order of their calls, and the number of `up`s.
abbrev pub callers : List Op → List ℕ
callers [] = []
callers (down_op me ∷ ops) = me ∷ callers ops
callers (up_op ∷ ops) = callers ops

abbrev pub ups : List Op → ℕ
ups [] = 0
ups (down_op me ∷ ops) = ups ops
ups (up_op ∷ ops) = suc (ups ops)

-- After `called` calls of `down` and as many `up`s as make up `credit` with the initial count.
record IsFair (called : List ℕ) (credit : ℕ) (g : Gate) : Type 0 where
  order : g.passed ++ g.sem.waiting ≡ called
  counted : g.sem.count + length g.passed ≡ credit
  idle : (g.sem.count ≡ 0) ⊎ (g.sem.waiting ≡ [])

-- A thread that joins at the back comes last in the order, whether it passes or waits.
join_passed :
    (me : ℕ) (passed waiting called : List ℕ)
    → waiting ≡ []
    → passed ++ waiting ≡ called
    → (passed ++ me ∷ []) ++ waiting ≡ called ++ me ∷ []
join_passed me passed waiting called w o =
    rw (w, append-nil)
      (ap (λ l. l ++ me ∷ []) (sym (append-nil passed) ∙ ap (λ l. passed ++ l) (sym w) ∙ o))

join_waiting :
    (me : ℕ) (passed waiting called : List ℕ)
    → passed ++ waiting ≡ called
    → passed ++ (waiting ++ me ∷ []) ≡ called ++ me ∷ []
join_waiting me passed waiting called o =
    sym (append_assoc passed waiting (me ∷ [])) ∙ ap (λ l. l ++ me ∷ []) o

idle_waiting :
    (g : Gate) {called : List ℕ} {credit : ℕ}
    → IsFair called credit g
    → 0 < g.sem.count
    → g.sem.waiting ≡ []
idle_waiting g f h = ground arith

step_down-IsFair :
    (me : ℕ) (called : List ℕ) (credit : ℕ) (g : Gate)
    → IsFair called credit g
    → IsFair (called ++ me ∷ []) credit (step g (down_op me))
unfolding step down
step_down-IsFair me called credit g f = elim (Bool-cases (ltb 0 g.sem.count)) [
  | inl go ↦
      let w = idle_waiting g f (ltb→lt _ _ go) in
      let o = join_passed me g.passed g.sem.waiting called w f.order in
      ground (arith, o, w, length-append g.passed (me ∷ []))
  | inr stop ↦ ground (arith, join_waiting me g.passed g.sem.waiting called f.order)
]

abbrev gate : ℕ → List ℕ → List ℕ → Gate
gate count waiting passed = record {
  sem = record { count = count; waiting = waiting };
  passed = passed;
}

step_up-IsFair :
    (called : List ℕ) (credit count : ℕ) (waiting passed : List ℕ)
    → suc credit < 2 ^ 64
    → IsFair called credit (gate count waiting passed)
    → IsFair called (suc credit) (step (gate count waiting passed) up_op)
unfolding step up wake
step_up-IsFair called credit count [] passed small f = record {
  order = f.order;
  counted = ground (arith, f.counted);
  idle = inr refl;
}
step_up-IsFair called credit count (t ∷ ts) passed small f = record {
  order = append_assoc passed (t ∷ []) ts ∙ f.order;
  counted = ground (arith, f.counted, length-append passed (t ∷ []));
  idle = ground (arith, f.idle);
}

run-IsFair :
    (ops : List Op) (called : List ℕ) (credit : ℕ) (g : Gate)
    → credit + ups ops < 2 ^ 64
    → IsFair called credit g
    → IsFair (called ++ callers ops) (credit + ups ops) (run ops g)
unfolding run
run-IsFair [] called credit g small f =
    ground (arith, append-nil called, f.order, f.counted, f.idle)
run-IsFair (down_op me ∷ ops) called credit g small f =
    rw (← append_assoc called (me ∷ []) (callers ops)) (
      run-IsFair ops (called ++ me ∷ []) credit (step g (down_op me)) small
        (step_down-IsFair me called credit g f))
run-IsFair (up_op ∷ ops) called credit g small f =
    let e : credit + suc (ups ops) ≡ suc credit + ups ops = omega arith in
    rw e (
      run-IsFair ops called (suc credit) (step g up_op) (omega arith)
        (step_up-IsFair called credit g.sem.count g.sem.waiting g.passed (omega arith) f))

-- What the invariant says of the whole state.
settled :
    (called : List ℕ) (credit : ℕ) (g : Gate)
    → IsFair called credit g
    → (g.passed ≡ take credit called)
      × (g.sem.waiting ≡ drop credit called)
      × (g.sem.count ≡ credit - length called)
settled called credit g f = elim f.idle [
  | inl spent ↦
      let full : length g.passed ≡ credit = omega (arith, f.counted) in
      (
        rw (← f.order) (sym (take-append_exact credit g.passed g.sem.waiting full)),
        rw (← f.order) (sym (drop-append_exact credit g.passed g.sem.waiting full)),
        omega (arith, total),
      )
  | inr nobody ↦
      let all : g.passed ≡ called =
        sym (append-nil g.passed) ∙ ap (λ l. g.passed ++ l) (sym nobody) ∙ f.order in
      let fits : length called ≤ credit = omega (arith, f.counted, total, ap length nobody) in
      (
        all ∙ sym (take_all credit called fits),
        nobody ∙ sym (drop_all credit called fits),
        omega (arith, f.counted, total, ap length nobody),
      )
]
  where
    total : length g.passed + length g.sem.waiting ≡ length called
    total = sym (length-append g.passed g.sem.waiting) ∙ ap length f.order

-- From a fresh semaphore of value `n`, with fewer than 2 ^ 64 credits in all, the threads that have
-- come through are exactly the first `n + ups` that called `down`, in the order of their calls; the
-- others wait in that order; and the count is what is left over. So no `up` is lost, no thread
-- overtakes another, and a thread waits only where all credit is used up.
pub fair_lem :
    (n : ℕ) (ops : List Op)
    → n + ups ops < 2 ^ 64
    → let g = run ops (record { sem = make n; passed = [] }) in
      let credit = n + ups ops in
      (g.passed ≡ take credit (callers ops))
      × (g.sem.waiting ≡ drop credit (callers ops))
      × (g.sem.count ≡ credit - length (callers ops))
fair_lem n ops small = settled (callers ops) (n + ups ops) (run ops (gate n [] [])) (
    run-IsFair ops [] n (gate n [] []) small
      (record { order = refl; counted = omega arith; idle = inr refl }))
