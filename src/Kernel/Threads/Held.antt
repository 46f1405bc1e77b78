-- ===== src/Kernel/Threads/Held.antt =====
-- What a core holds before and behind its steps.
use os_shell.Common.{
  ℕ, ◌≡◌, refl, Bool, true, false, some, List, [], ◌∷◌, arith, ◌==◌, if◌then◌else◌, get_elem?,
  Bool-cases, ap, sym, All, inl, inr, subst,
}
use os_shell.Kernel.Threads.{
  Tcb, Core, Threads, Stage, running, asking, chosen, acting, Action, to_zombies, put, take_from,
  resumed,
}
use os_shell.Kernel.Threads.Places.{total, is_thread, holds, places}
use os_shell.Kernel.Threads.Kept.{
  All-get_elem?, All-set, IsOwn, IsOwnStage, IsKept, IsKeptBut, IsKeptBy, if_lem, places-put,
}

module _ (procs n : ℕ) where
  pub put-IsKept :
      (c : ℕ) (core core' : Core) (s : Threads)
      → IsKept procs n s
      → get_elem? s.cores c ≡ some core
      → ((i : ℕ) → holds i core' ≡ holds i core)
      → IsOwn core'
      → IsKept procs n (put c core' s)
  put-IsKept c core core' s k at same own' = record {
    made = λ i. omega (arith, places-put i c core core' s at, same i, k.made i);
    own = All-set IsOwn s.cores c core' k.own own';
    ready = k.ready;
    numbered = k.numbered;
  }

  own_stage :
      (c : ℕ) (core : Core) (stage : Stage) (s : Threads)
      → IsKept procs n s
      → get_elem? s.cores c ≡ some core
      → core.stage ≡ stage
      → IsOwnStage core stage
  own_stage c core stage s k at e =
      subst (IsOwnStage core) e (All-get_elem? IsOwn s.cores c core k.own at).stage

  -- What a core holds at a stage.
  holds_at :
      (i : ℕ) (core : Core) (stage : Stage)
      → core.stage ≡ stage
      → holds i core ≡ holds i (record core { stage = stage })
  holds_at i core stage e = ap (λ st. holds i (record core { stage = st })) e

  take_first-IsKept :
      (c : ℕ) (core : Core) (t : Tcb) (ts : List Tcb) (must : Bool) (action : Action) (s : Threads)
      → IsKept procs n s
      → get_elem? s.cores c ≡ some core
      → core.stage ≡ asking must action
      → s.ready ≡ t ∷ ts
      → IsKept procs n (put c (record core { stage = chosen t action }) (record s { ready = ts }))
  unfolding places holds total
  take_first-IsKept c core t ts must action s k at e r =
      let core' : Core = record core { stage = chosen t action } in
      let mine = All-get_elem? IsOwn s.cores c core k.own at in
      let plain : All (λ u. u.is_idle ≡ false) (t ∷ ts) =
        subst (All (λ u. u.is_idle ≡ false)) r k.ready in
      record {
        made = λ i. omega (
          arith,
          places-put i c core core' s at,
          holds_at i core (asking must action) e,
          ap (total (is_thread i)) r,
          k.made i,
        );
        own = All-set IsOwn s.cores c core' k.own (record {
          is_idle = mine.is_idle;
          is_here = mine.is_here;
          stage = (λ idle. (own_stage c core (asking must action) s k at e idle).1, λ idle. cc);
        });
        ready = plain.1;
        numbered = k.numbered;
      }

  pub take_from-IsKept :
      (ts : List Tcb) (c : ℕ) (core : Core) (must : Bool) (action : Action) (s : Threads)
      → IsKept procs n s
      → get_elem? s.cores c ≡ some core
      → core.stage ≡ asking must action
      → s.ready ≡ ts
      → IsKeptBy procs n (take_from ts c core must action s)
  unfolding take_from holds
  take_from-IsKept [] c core must action s k at e r =
      let mine = All-get_elem? IsOwn s.cores c core k.own at in
      let calls = own_stage c core (asking must action) s k at e in
      let held : (i : ℕ) → holds i core ≡ is_thread i core.active =
        λ i. holds_at i core (asking must action) e in
      if_lem (IsKeptBy procs n) must _ _
        (λ m.
          if_lem (IsKeptBy procs n) core.active.is_idle _ _
            (λ idle.
              if_lem (IsKeptBy procs n) (core.active.id == core.idle.id) _ _ (λ f. k) (λ f. tt))
            (λ worker.
              put-IsKept c core (record core { stage = chosen core.idle action }) s k at
                (λ i. ground (arith, held i, mine.is_idle))
                (record {
                  is_idle = mine.is_idle;
                  is_here = mine.is_here;
                  stage = (λ idle. (calls idle).1, λ idle. refl);
                })))
        (λ m.
          put-IsKept c core (record core { stage = running }) s k at (λ i. sym (held i))
            (record {
              is_idle = mine.is_idle;
              is_here = mine.is_here;
              stage = elim (Bool-cases core.active.is_idle) [
                | inl idle ↦ let f = (calls idle).0 in cc
                | inr worker ↦ worker
              ];
            }))
  take_from-IsKept (t ∷ ts) c core must action s k at e r =
      take_first-IsKept c core t ts must action s k at e r

  resumed-holds : (i : ℕ) (core : Core) → holds i (resumed core) ≡ is_thread i core.active
  unfolding holds
  resumed-holds i core = by_kind core.active.is_idle
    where
      by_kind :
          (b : Bool)
          → holds i (record core { stage = if b then asking true to_zombies else running })
            ≡ is_thread i core.active
      by_kind true = refl
      by_kind false = refl

  resumed-IsOwn : (core : Core) → IsOwn core → IsOwn (resumed core)
  resumed-IsOwn core mine = by_kind core.active.is_idle refl
    where
      by_kind :
          (b : Bool)
          → core.active.is_idle ≡ b
          → IsOwn (record core { stage = if b then asking true to_zombies else running })
      by_kind true e = record {
        is_idle = mine.is_idle;
        is_here = mine.is_here;
        stage = λ idle. (refl, refl);
      }
      by_kind false e = record { is_idle = mine.is_idle; is_here = mine.is_here; stage = e }

  -- Behind the switch, the core holds the thread that has left no longer.
  pub left-IsKeptBut :
      (c : ℕ) (core : Core) (me : Tcb) (action : Action) (s : Threads)
      → IsKept procs n s
      → get_elem? s.cores c ≡ some core
      → core.stage ≡ acting me action
      → IsKeptBut procs n me (put c (resumed core) s)
  unfolding holds
  left-IsKeptBut c core me action s k at e = record {
    made = λ i. omega (
      arith,
      places-put i c core (resumed core) s at,
      resumed-holds i core,
      holds_at i core (acting me action) e,
      k.made i,
    );
    own =
        All-set IsOwn s.cores c (resumed core) k.own
          (resumed-IsOwn core (All-get_elem? IsOwn s.cores c core k.own at));
    ready = k.ready;
    numbered = k.numbered;
  }
