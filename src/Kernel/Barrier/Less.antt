-- ===== src/Kernel/Barrier/Less.antt =====
-- Every step of a thread leaves less to do.
use os_shell.Common.{
  ℕ, zero, suc, ◌+◌, ◌-◌, ◌%◌, ◌^◌, ◌<◌, ◌≡◌, ◌≢◌, refl, none, some, List, ◌∷◌, arith, Bool, true,
  false, ◌==◌, ltb, if◌then◌else◌, get_or, get_or-set_ne, set, replicate, length-replicate, ap, sym,
  subst, ◌∙◌, Bool-cases, inl, inr,
}
use os_shell.Kernel.Barrier.{
  Barrier, Phase, outside, last, early, asleep, passed, done, start, phase, move, arrive, leave,
  enter,
}
use os_shell.Kernel.Barrier.Phases.{
  total, total-replicate, is_outside, is_past, is_asleep, steps_left, occurs, outside-ne-done,
  asleep-ne-done, early-ne-done,
}
use os_shell.Kernel.Barrier.Meeting.{
  IsMeeting, thread_inside, total_of, List-cases, up_empty, up_next, down_free, down_taken,
  asleep_one,
}

pub start-IsMeeting : (n : ℕ) → 0 < n → n < 2 ^ 31 → IsMeeting n (start n)
unfolding start occurs
start-IsMeeting n h small = record {
  positive = h;
  small = small;
  size = length-replicate n outside;
  coming = grind (arith, total-replicate is_outside n outside);
  past_shut = λ g. grind (arith, total-replicate is_past n outside);
  sem_shut = λ g. refl;
  token = λ g. absurd (omega arith);
  queue = λ i. outside_or_done n i;
  unneeded = λ g. absurd (omega arith);
}
  where
    outside_or_done : (n i : ℕ) → 0 ≡ is_asleep (get_or (replicate n outside) i done)
    outside_or_done zero i = refl
    outside_or_done (suc n) zero = refl
    outside_or_done (suc n) (suc i) = outside_or_done n i

pub none-ne-some {ℓ} : {A : Type ℓ} {x : A} → none ≢ some x
none-ne-some h = cc

pub some-injective {ℓ} : {A : Type ℓ} {x y : A} → some x ≡ some y → x ≡ y
some-injective h = cc

pub last-ne-done : last ≢ done
last-ne-done h = cc

pub passed-ne-done : passed ≢ done
passed-ne-done h = cc

pub last-ne-asleep : last ≢ asleep
last-ne-asleep h = cc

pub passed-ne-asleep : passed ≢ asleep
passed-ne-asleep h = cc

-- A step of thread `i` from phase `p` to phase `q` has less to do behind it.
less_left :
    (b : Barrier) (i : ℕ) (p q : Phase)
    → phase b i ≡ p
    → p ≢ done
    → steps_left q < steps_left p
    → total steps_left (set b.phases i q) < total steps_left b.phases
less_left b i p q e nd h =
    omega
      (arith, total_of steps_left b.phases i p q e (thread_inside b.phases i (λ d. nd (sym e ∙ d))))

waits_asleep :
    (n : ℕ) (b : Barrier) (t : ℕ) (ts : List ℕ)
    → IsMeeting n b
    → b.sem.waiting ≡ t ∷ ts
    → phase b t ≡ asleep
unfolding occurs
waits_asleep n b t ts m waits =
    asleep_one (phase b t) (ground (arith, ap (occurs t) (sym waits) ∙ m.queue t))

pub leave_less :
    (n i : ℕ) (b : Barrier) (p : Phase)
    → IsMeeting n b
    → phase b i ≡ p
    → p ≢ done
    → p ≢ asleep
    → 0 < steps_left p
    → total steps_left (leave i b).phases < total steps_left b.phases
unfolding leave
leave_less n i b p m e nd na h =
    let first = less_left b i p done e nd h in
    elim (List-cases b.sem.waiting) [
      | inl none_waits ↦ rw (up_empty b.sem none_waits, leave) first
      | inr (t, ts, waits) ↦
          rw (up_next b.sem t ts waits, leave)
            (let slept = waits_asleep n b t ts m waits in
              let apart : i ≢ t = λ f. na (sym e ∙ ap (phase b) f ∙ slept) in
              let slept' = get_or-set_ne b.phases i t done done apart ∙ slept in
              omega (
                arith,
                first,
                less_left (move i done b) t asleep passed slept' asleep-ne-done (omega arith),
              ))
    ]

pub enter_less :
    (i : ℕ) (b : Barrier)
    → phase b i ≡ early
    → total steps_left (enter i b).phases < total steps_left b.phases
unfolding enter
enter_less i b e = elim (Bool-cases (ltb 0 b.sem.count)) [
  | inl f ↦
      rw (down_free i b.sem f, enter) (less_left b i early passed e early-ne-done (omega arith))
  | inr f ↦
      rw (down_taken i b.sem f, enter) (less_left b i early asleep e early-ne-done (omega arith))
]

pub arrive_less :
    (i : ℕ) (b b' : Barrier)
    → phase b i ≡ outside
    → arrive i b ≡ some b'
    → total steps_left b'.phases < total steps_left b.phases
unfolding arrive
arrive_less i b b' e h =
    let x = (b.count + 2 ^ 32 - 1) % 2 ^ 32 in
    let less =
      less_left b i outside (if x == 0 then last else early) e outside-ne-done (later (x == 0)) in
    elim (Bool-cases (ltb x (2 ^ 31))) [
      | inr f ↦ absurd (none-ne-some (sym (rw (f, arrive)) ∙ h))
      | inl f ↦
          let to : Barrier = move i (if x == 0 then last else early) (record b { count = x }) in
          let same : to ≡ b' = some-injective (sym (rw (f, arrive)) ∙ h) in
          subst (λ c. total steps_left c.phases < total steps_left b.phases) same less
    ]
  where
    later : (t : Bool) → steps_left (if t then last else early) < 4
    later true = omega arith
    later false = omega arith
