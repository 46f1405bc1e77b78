-- ===== src/Kernel/Locks/Safe.antt =====
-- One core at a time is in the critical section, and unlock gives it the flag that it had.
use os_shell.Common.{
  ℕ, ◌≡◌, refl, Bool, true, false, List, [], ◌∷◌, if◌then◌else◌, ap, sym, ◌∙◌, subst,
}
use os_shell.Kernel.Locks.{
  Position, outside, again, holding, tried, lost, won, releasing, released, Core, Lock, new_lock,
  put, disable, restore, step, set_flag, Event, step_event, flag_event, run,
}
use os_shell.Kernel.Locks.Kept.{
  is_inside, Remembers, Enters, IsSafe, move-IsSafe, disable_lem, restore_lem, false-ne-true,
}

module _ (c : ℕ) (s : Lock) (k : IsSafe s) where
  remembered : (p : Position) → (s.cores c).position ≡ p → Remembers s.was (s.cores c) p
  remembered p e = subst (Remembers s.was (s.cores c)) e (k.flags c)

  -- A step that changes the core alone and goes neither in nor out.
  aside-IsSafe :
      (core : Core)
      → is_inside core.position ≡ is_inside (s.cores c).position
      → Remembers s.was core core.position
      → IsSafe (put c core s)
  aside-IsSafe core same mine =
      move-IsSafe c core s.taken s.was s k
        (λ e. (k.shut c (sym same ∙ e), λ j away f. away (k.one j c f (sym same ∙ e))))
        (λ j away e. k.shut j e) mine (λ j away. k.flags j)

  tried-IsSafe :
      (w : Bool)
      → (s.cores c).position ≡ tried w
      → (b : Bool) → s.taken ≡ b
      → IsSafe (
          put c
            (record (s.cores c) { position = if b then lost w else won w })
            (record s { taken = true }))
  tried-IsSafe w e true t =
      move-IsSafe c (record (s.cores c) { position = lost w }) true s.was s k
        (λ f. absurd (false-ne-true f)) (λ j away f. refl) (remembered (tried w) e)
        (λ j away. k.flags j)
  tried-IsSafe w e false t =
      move-IsSafe c (record (s.cores c) { position = won w }) true s.was s k
        (λ f. (refl, λ j away g. false-ne-true (sym t ∙ k.shut j g))) (λ j away f. refl)
        (remembered (tried w) e) (λ j away. k.flags j)

  -- The store to `was` touches no other core: none is inside.
  won-IsSafe :
      (w : Bool)
      → (s.cores c).position ≡ won w
      → IsSafe (put c (record (s.cores c) { position = holding }) (record s { was = w }))
  won-IsSafe w e =
      let entered : Enters (s.cores c) = ap is_inside e in
      move-IsSafe c (record (s.cores c) { position = holding }) s.taken w s k
        (λ f. (k.shut c entered, λ j away g. away (k.one j c g entered))) (λ j away f. k.shut j f)
        (remembered (won w) e)
        (λ j away. others (s.cores j) (k.flags j) (λ g. away (k.one j c g entered)))
    where
      others :
          (core : Core)
          → Remembers s.was core core.position
          → (Enters core → ⊥)
          → Remembers w core core.position
      others core = by_position core.position
        where
          by_position :
              (p : Position)
              → Remembers s.was core p
              → (is_inside p ≡ true → ⊥)
              → Remembers w core p
          by_position outside r out = r
          by_position again r out = r
          by_position holding r out = absurd (out refl)
          by_position (tried v) r out = r
          by_position (lost v) r out = r
          by_position (won v) r out = r
          by_position (releasing v) r out = r
          by_position (released v) r out = r

  releasing-IsSafe :
      (w : Bool)
      → (s.cores c).position ≡ releasing w
      → IsSafe (put c (record (s.cores c) { position = released w }) (record s { taken = false }))
  releasing-IsSafe w e =
      let entered : Enters (s.cores c) = ap is_inside e in
      move-IsSafe c (record (s.cores c) { position = released w }) false s.was s k
        (λ f. absurd (false-ne-true f)) (λ j away f. absurd (away (k.one j c f entered)))
        (remembered (releasing w) e) (λ j away. k.flags j)

  disabled-IsSafe :
      is_inside (s.cores c).position ≡ false
      → (s.cores c).is_disabled ≡ (s.cores c).own
      → let (was_disabled, core) = disable (s.cores c) in
        IsSafe (put c (record core { position = tried was_disabled }) s)
  disabled-IsSafe out same =
      let (set, read, own) = disable_lem (s.cores c) in
      aside-IsSafe (record ((disable (s.cores c)).1) { position = tried ((disable (s.cores c)).0) })
        (sym out) (read ∙ same ∙ sym own, set)

  step-IsSafe : (p : Position) → (s.cores c).position ≡ p → IsSafe (step c p s)
  unfolding step
  step-IsSafe outside e = disabled-IsSafe (ap is_inside e) (remembered outside e)
  step-IsSafe again e = disabled-IsSafe (ap is_inside e) (remembered again e)
  step-IsSafe (tried w) e = tried-IsSafe w e s.taken refl
  step-IsSafe (lost w) e =
      aside-IsSafe (record (restore w (s.cores c)) { position = again }) (sym (ap is_inside e))
        (restore_lem w (s.cores c) (remembered (lost w) e))
  step-IsSafe (won w) e = won-IsSafe w e
  step-IsSafe holding e =
      aside-IsSafe (record (s.cores c) { position = releasing s.was }) (sym (ap is_inside e))
        (remembered holding e)
  step-IsSafe (releasing w) e = releasing-IsSafe w e
  step-IsSafe (released w) e =
      aside-IsSafe (record (restore w (s.cores c)) { position = outside }) (sym (ap is_inside e))
        (restore_lem w (s.cores c) (remembered (released w) e))

  set_flag-IsSafe :
      (flag : Bool) (p : Position) → (s.cores c).position ≡ p → IsSafe (set_flag c flag p s)
  unfolding set_flag
  set_flag-IsSafe flag outside e =
      aside-IsSafe (record { is_disabled = flag; own = flag; position = outside })
        (sym (ap is_inside e)) refl
  set_flag-IsSafe flag again e = k
  set_flag-IsSafe flag holding e = k
  set_flag-IsSafe flag (tried w) e = k
  set_flag-IsSafe flag (lost w) e = k
  set_flag-IsSafe flag (won w) e = k
  set_flag-IsSafe flag (releasing w) e = k
  set_flag-IsSafe flag (released w) e = k

run-IsSafe : (es : List Event) (s : Lock) → IsSafe s → IsSafe (run es s)
unfolding run
run-IsSafe [] s k = k
run-IsSafe (step_event c ∷ es) s k =
    run-IsSafe es (step c (s.cores c).position s) (step-IsSafe c s k (s.cores c).position refl)
run-IsSafe (flag_event c flag ∷ es) s k =
    run-IsSafe es (set_flag c flag (s.cores c).position s)
      (set_flag-IsSafe c s k flag (s.cores c).position refl)

new_lock-IsSafe : (flags : ℕ → Bool) → IsSafe (new_lock flags)
unfolding new_lock
new_lock-IsSafe flags = record {
  shut = λ i e. absurd (false-ne-true e);
  one = λ i j e. absurd (false-ne-true e);
  flags = λ i. refl;
}

-- In every interleaving of any number of cores, two cores that are inside the critical section are
-- the same; a core that is inside has its interrupts off, so that no handler of its own meets the
-- lock taken; and a core outside has the interrupt flag that its own code set last, whatever the
-- other cores stored in `was`.
pub lock_safe :
    (flags : ℕ → Bool) (es : List Event)
    → let s = run es (new_lock flags) in
      ((i j : ℕ)
        → is_inside (s.cores i).position ≡ true
        → is_inside (s.cores j).position ≡ true
        → i ≡ j)
      × ((i : ℕ) → is_inside (s.cores i).position ≡ true → (s.cores i).is_disabled ≡ true)
      × ((i : ℕ) → (s.cores i).position ≡ outside → (s.cores i).is_disabled ≡ (s.cores i).own)
lock_safe flags es =
    let k = run-IsSafe es (new_lock flags) (new_lock-IsSafe flags) in
    let s = run es (new_lock flags) in
    (
      k.one,
      λ i e. by_position s.was (s.cores i) (s.cores i).position (k.flags i) e,
      λ i e. remembered i s k outside e,
    )
  where
    by_position :
        (was : Bool) (core : Core) (p : Position)
        → Remembers was core p
        → is_inside p ≡ true
        → core.is_disabled ≡ true
    by_position was core outside r e = absurd (false-ne-true e)
    by_position was core again r e = absurd (false-ne-true e)
    by_position was core holding r e = r.1
    by_position was core (tried w) r e = absurd (false-ne-true e)
    by_position was core (lost w) r e = absurd (false-ne-true e)
    by_position was core (won w) r e = r.1
    by_position was core (releasing w) r e = r.1
    by_position was core (released w) r e = absurd (false-ne-true e)
