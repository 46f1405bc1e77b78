-- ===== src/Kernel/Barrier/Safe.antt =====
-- What holds in every interleaving.
use os_shell.Common.{
  ℕ, ◌+◌, ◌-◌, ◌%◌, ◌^◌, ◌<◌, ◌≡◌, ◌≢◌, ◌⊎◌, refl, some, List, [], ◌∷◌, arith, true, ◌==◌, ==_refl,
  ltb, ltb→lt, ltb→le, lt→ltb, length, length-set, get_or, get_or-set_self, get_or-set_ne, set, ap,
  sym, ◌∙◌, Bool-cases, inl, inr,
}
use os_shell.Kernel.Barrier.{
  Barrier, Phase, outside, last, early, asleep, passed, done, phase, move, arrive, leave, enter,
}
use os_shell.Kernel.Barrier.Phases.{
  total, le-total, is_outside, has_token, is_past, is_asleep, occurs, occurs-append,
  outside-le-length, token-le-past, outside-ne-done, asleep-ne-done, early-ne-done,
}
use os_shell.Kernel.Barrier.Meeting.{
  IsMeeting, total_of, thread_inside, asleep_as_before, List-cases, up_empty, up_next, down_free,
  down_taken, asleep_one,
}

module _ (n : ℕ) (b : Barrier) (m : IsMeeting n b) (i : ℕ) where
  -- The decrement in terms of numbers: `q` is where it leads.
  arrived :
      (q : Phase)
      → phase b i ≡ outside
      → ((b.count ≡ 1) × (q ≡ last)) ⊎ ((1 < b.count) × (q ≡ early))
      → IsMeeting n (move i q (record b { count = b.count - 1 }))
  arrived q e to =
      let inside = thread_inside b.phases i (λ d. outside-ne-done (sym e ∙ d)) in
      let one = le-total is_outside b.phases i inside in
      let here = ap is_outside e in
      let some_left : 0 < b.count = omega (arith, m.coming) in
      let no_token : total has_token b.phases ≡ 0 =
        omega (arith, token-le-past b.phases, m.past_shut some_left) in
      let behind = λ (w : Phase → ℕ). total_of w b.phases i outside q e inside in
      elim to [
        | inl (c, l) ↦ record {
          positive = m.positive;
          small = m.small;
          size = length-set b.phases i q ∙ m.size;
          coming = omega (arith, behind is_outside, ap is_outside l, m.coming);
          past_shut = λ h. absurd (omega arith);
          sem_shut = λ h. absurd (omega arith);
          token = λ h. omega (arith, behind has_token, ap has_token l, m.sem_shut some_left);
          queue = λ j.
              m.queue j ∙ asleep_as_before b.phases i j outside q e (sym (ap is_asleep l)) inside;
          unneeded = m.unneeded;
        }
        | inr (c, l) ↦ record {
          positive = m.positive;
          small = m.small;
          size = length-set b.phases i q ∙ m.size;
          coming = omega (arith, behind is_outside, ap is_outside l, m.coming);
          past_shut = λ h. omega (arith, behind is_past, ap is_past l, m.past_shut some_left);
          sem_shut = λ h. m.sem_shut some_left;
          token = λ h. absurd (omega arith);
          queue = λ j.
              m.queue j ∙ asleep_as_before b.phases i j outside q e (sym (ap is_asleep l)) inside;
          unneeded = m.unneeded;
        }
      ]

  -- `p` is `last` or `passed`.
  module _ (p : Phase) (e : phase b i ≡ p)
      (h : (has_token p ≡ 1)
        × (is_past p ≡ 1)
        × (is_outside p ≡ 0)
        × (is_asleep p ≡ 0)
        × (p ≢ done)) where
    inside : i < length b.phases
    inside = thread_inside b.phases i (λ d. h.4 (sym e ∙ d))

    all_here : b.count ≡ 0
    all_here =
        let one = le-total is_past b.phases i inside in
        elim (Bool-cases (ltb 0 b.count)) [
          | inl more ↦ absurd (omega (arith, m.past_shut (ltb→lt _ _ more), ap is_past e, h.1))
          | inr zero' ↦ omega (arith, ltb→le _ _ zero')
        ]

    sem_zero : b.sem.count ≡ 0
    sem_zero =
        omega (arith, m.token all_here, le-total has_token b.phases i inside, ap has_token e, h.0)

    behind : (w : Phase → ℕ) → total w (set b.phases i done) + w p ≡ total w b.phases + w done
    behind w = total_of w b.phases i p done e inside

    left_empty :
        b.sem.waiting ≡ []
        → IsMeeting n
            (move i done (record b { sem = record b.sem { count = (b.sem.count + 1) % 2 ^ 64 } }))
    left_empty none_waits = record {
      positive = m.positive;
      small = m.small;
      size = length-set b.phases i done ∙ m.size;
      coming = omega (arith, behind is_outside, h.2, m.coming);
      past_shut = λ g. absurd (omega (arith, all_here));
      sem_shut = λ g. absurd (omega (arith, all_here));
      token = λ g. omega (arith, behind has_token, h.0, sem_zero, m.token all_here);
      queue = λ j. m.queue j ∙ asleep_as_before b.phases i j p done e h.3 inside;
      unneeded = λ g. none_waits;
    }

    left_next :
        (t : ℕ) (ts : List ℕ)
        → b.sem.waiting ≡ t ∷ ts
        → IsMeeting n
            (move t passed (move i done (record b { sem = record b.sem { waiting = ts } })))
    unfolding occurs
    left_next t ts waits =
        let queue_of = λ (j : ℕ). ap (occurs j) (sym waits) ∙ m.queue j in
        let slept : phase b t ≡ asleep = asleep_one (phase b t) (ground (arith, queue_of t)) in
        let apart : t ≢ i = λ f. absurd (
          omega
            (arith, ap is_asleep slept, ap is_asleep e, h.3, ap (λ k. is_asleep (phase b k)) f)) in
        let t_inside : t < length (set b.phases i done) = omega (
          arith,
          length-set b.phases i done,
          thread_inside b.phases t (λ d. asleep-ne-done (sym slept ∙ d)),
        ) in
        let slept' : get_or (set b.phases i done) t done ≡ asleep =
          get_or-set_ne b.phases i t done done (λ f. apart (sym f)) ∙ slept in
        let then' =
          λ (w : Phase → ℕ). total_of w (set b.phases i done) t asleep passed slept' t_inside in
        record {
          positive = m.positive;
          small = m.small;
          size = length-set (set b.phases i done) t passed ∙ length-set b.phases i done ∙ m.size;
          coming = omega (arith, behind is_outside, then' is_outside, h.2, m.coming);
          past_shut = λ g. absurd (omega (arith, all_here));
          sem_shut = λ g. absurd (omega (arith, all_here));
          token = λ g.
              omega (arith, behind has_token, then' has_token, h.0, sem_zero, m.token all_here);
          queue = λ j. elim (Bool-cases (j == t)) [
            | inl f ↦
                let at : j ≡ t = ground arith in
                rw (at, get_or-set_self (set b.phases i done) t passed done t_inside)
                  (ground (arith, queue_of t, ap is_asleep slept))
            | inr f ↦
                rw (get_or-set_ne (set b.phases i done) t j passed done (λ g. ground arith))
                  (ground (arith, queue_of j) ∙ asleep_as_before b.phases i j p done e h.3 inside)
          ];
          unneeded = λ g. absurd (omega (arith, sem_zero));
        }

  pub left-IsMeeting :
      (p : Phase)
      → phase b i ≡ p
      → ((has_token p ≡ 1) × (is_past p ≡ 1) × (is_outside p ≡ 0) × (is_asleep p ≡ 0) × (p ≢ done))
      → IsMeeting n (leave i b)
  unfolding leave
  left-IsMeeting p e h = elim (List-cases b.sem.waiting) [
    | inl none_waits ↦ rw (up_empty b.sem none_waits, leave) (left_empty p e h none_waits)
    | inr (t, ts, waits) ↦ rw (up_next b.sem t ts waits, leave) (left_next p e h t ts waits)
  ]

  pub entered-IsMeeting : phase b i ≡ early → IsMeeting n (enter i b)
  unfolding enter
  entered-IsMeeting e =
      let inside = thread_inside b.phases i (λ d. early-ne-done (sym e ∙ d)) in
      let behind = λ (q : Phase) (w : Phase → ℕ). total_of w b.phases i early q e inside in
      elim (Bool-cases (ltb 0 b.sem.count)) [
        | inl free ↦
            rw (down_free i b.sem free, enter)
              (let raised = ltb→lt 0 b.sem.count free in
                let shut : b.count ≡ 0 = elim (Bool-cases (ltb 0 b.count)) [
                  | inl more ↦ absurd (omega (arith, m.sem_shut (ltb→lt _ _ more)))
                  | inr zero' ↦ omega (arith, ltb→le _ _ zero')
                ] in
                record {
                  positive = m.positive;
                  small = m.small;
                  size = length-set b.phases i passed ∙ m.size;
                  coming = omega (arith, behind passed is_outside, m.coming);
                  past_shut = λ g. absurd (omega arith);
                  sem_shut = λ g. absurd (omega arith);
                  token = λ g. omega (arith, behind passed has_token, m.token shut);
                  queue = λ j. m.queue j ∙ asleep_as_before b.phases i j early passed e refl inside;
                  unneeded = λ g. m.unneeded raised;
                })
        | inr taken ↦
            rw (down_taken i b.sem taken, enter)
              (let empty : b.sem.count ≡ 0 = omega (arith, ltb→le _ _ taken) in
                record {
                  positive = m.positive;
                  small = m.small;
                  size = length-set b.phases i asleep ∙ m.size;
                  coming = omega (arith, behind asleep is_outside, m.coming);
                  past_shut = λ g. omega (arith, behind asleep is_past, m.past_shut g);
                  sem_shut = m.sem_shut;
                  token = λ g. omega (arith, behind asleep has_token, m.token g);
                  queue = λ j. occurs-append j b.sem.waiting i ∙ elim (Bool-cases (j == i)) [
                    | inl f ↦
                        let at : j ≡ i = ground arith in
                        rw (at, ==_refl i, get_or-set_self b.phases i asleep done inside)
                          (omega (arith, m.queue i, ap is_asleep e))
                    | inr f ↦
                        rw (f, get_or-set_ne b.phases i j asleep done (λ g. ground arith))
                          (omega (arith, m.queue j))
                  ];
                  unneeded = λ g. absurd (omega arith);
                })
      ]

  pub arrive-IsMeeting :
      phase b i ≡ outside → (b' : Barrier) × (arrive i b ≡ some b') × IsMeeting n b'
  unfolding arrive
  arrive-IsMeeting e =
      let inside = thread_inside b.phases i (λ d. outside-ne-done (sym e ∙ d)) in
      let some_left : 0 < b.count =
        omega (arith, le-total is_outside b.phases i inside, ap is_outside e, m.coming) in
      let x : (b.count + 2 ^ 32 - 1) % 2 ^ 32 ≡ b.count - 1 =
        omega (arith, m.coming, m.small, m.size, outside-le-length b.phases) in
      let positive' : ltb (b.count - 1) (2 ^ 31) ≡ true =
        lt→ltb _ _ (omega (arith, m.coming, m.small, m.size, outside-le-length b.phases)) in
      elim (Bool-cases (b.count - 1 == 0)) [
        | inl z ↦ (
          move i last (record b { count = b.count - 1 }),
          rw (x, positive', z, arrive),
          arrived last e (inl (ground arith, refl)),
        )
        | inr nz ↦ (
          move i early (record b { count = b.count - 1 }),
          rw (x, positive', nz, arrive),
          arrived early e (inr (ground arith, refl)),
        )
      ]
