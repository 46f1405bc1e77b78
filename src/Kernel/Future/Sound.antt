-- ===== src/Kernel/Future/Sound.antt =====
-- Invariant of the future's schedules, and what the semaphore does in it.
use os_shell.Common.{
  ℕ, ◌≡◌, true, false, Bool, Option, none, some, [], ◌∷◌, arith, ◌==◌, Bool-cases, inl, inr, ltb,
  ◌-◌, ◌++◌,
}
use os_shell.Kernel.Future.{
  Future, Getting, Setting, outside, unready, asleep, passed, reading, got, before, stored, raised,
  finished, move_to, woken, wait_for,
}
use os_shell.Kernel.Semaphore
use os_shell.Kernel.Semaphore.{Semaphore, acquired, blocked}

-- Behind the semaphore, or behind a test that found the future ready.
abbrev pub is_past : Getting → Bool
is_past outside = false
is_past unready = false
is_past asleep = false
is_past passed = true
is_past reading = true
is_past (got x) = true

-- What the fields are by where the setting thread stands.
abbrev pub Placed : ℕ → Bool → ℕ → Setting → Type 0
Placed v ready t before = ready ≡ false
Placed v ready t stored = (ready ≡ false) × (t ≡ v)
Placed v ready t raised = (ready ≡ true) × (t ≡ v)
Placed v ready t finished = (ready ≡ true) × (t ≡ v)

-- What a thread has got.
abbrev pub HasRight : ℕ → Getting → Type 0
HasRight v outside = Unit
HasRight v unready = Unit
HasRight v asleep = Unit
HasRight v passed = Unit
HasRight v reading = Unit
HasRight v (got x) = x ≡ v

pub record IsSound (v : ℕ) (f : Future) : Type 0 where
  pub placed : Placed v f.is_ready f.t f.setting
  pub calm : f.is_ready ≡ false → f.go.count ≡ 0
  pub past : (i : ℕ) → is_past (f.getting i) ≡ true → f.is_ready ≡ true
  pub right : (i : ℕ) → HasRight v (f.getting i)

pub value_lem :
    (v : ℕ) (ready : Bool) (t : ℕ) (s : Setting) → Placed v ready t s → ready ≡ true → t ≡ v
value_lem v ready t before p h = absurd (ground arith)
value_lem v ready t stored p h = p.1
value_lem v ready t raised p h = p.1
value_lem v ready t finished p h = p.1

pub move_to-IsSound :
    (v i : ℕ) (p : Getting) (f : Future)
    → IsSound v f
    → (is_past p ≡ true → f.is_ready ≡ true)
    → HasRight v p
    → IsSound v (move_to i p f)
move_to-IsSound v i p f ok ready right = record {
  placed = ok.placed;
  calm = ok.calm;
  past = λ j. elim (Bool-cases (j == i)) [ inl e ↦ rw e ready | inr e ↦ rw e (ok.past j) ];
  right = λ j. elim (Bool-cases (j == i)) [ inl e ↦ rw e right | inr e ↦ rw e (ok.right j) ];
}

-- The semaphore may change when the future is ready, or when its count stays 0.
go-IsSound :
    (v : ℕ) (sem : Semaphore) (f : Future)
    → IsSound v f
    → (f.is_ready ≡ false → sem.count ≡ 0)
    → IsSound v (record f { go = sem })
go-IsSound v sem f ok calm = record {
  placed = ok.placed;
  calm = calm;
  past = ok.past;
  right = ok.right;
}

pub woken-IsSound :
    (v : ℕ) (r : Option ℕ × Semaphore) (f : Future)
    → IsSound v f
    → f.is_ready ≡ true
    → IsSound v (woken r f)
unfolding woken
woken-IsSound v (none, sem) f ok ready = go-IsSound v sem f ok (λ e. absurd (ground arith))
woken-IsSound v (some i, sem) f ok ready =
    move_to-IsSound v i passed (record f { go = sem })
      (go-IsSound v sem f ok (λ e. absurd (ground arith))) (λ e. ready) tt

pub wait_for-IsSound : (v i : ℕ) (f : Future) → IsSound v f → IsSound v (wait_for i f)
unfolding wait_for Semaphore.down
wait_for-IsSound v i f ok = elim (Bool-cases (ltb 0 f.go.count)) [
  | inl more ↦
      let ready : f.is_ready ≡ true = elim (Bool-cases f.is_ready) [
        | inl e ↦ e
        | inr e ↦ let z = ok.calm e in absurd (ground arith)
      ] in
      rw (wait_for, more)
        (move_to-IsSound v i passed (record f { go = record f.go { count = f.go.count - 1 } })
          (go-IsSound v (record f.go { count = f.go.count - 1 }) f ok (λ e. absurd (ground arith)))
          (λ e. ready) tt)
  | inr less ↦
      rw (wait_for, less)
        (move_to-IsSound v i asleep
          (record f { go = record f.go { waiting = f.go.waiting ++ i ∷ [] } })
          (go-IsSound v (record f.go { waiting = f.go.waiting ++ i ∷ [] }) f ok ok.calm)
          (λ e. absurd (ground arith)) tt)
]
