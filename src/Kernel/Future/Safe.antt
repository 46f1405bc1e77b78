-- ===== src/Kernel/Future/Safe.antt =====
-- Who has got a future has the value that was set.
use os_shell.Common.{
  ℕ, ◌≡◌, ◌≢◌, refl, true, false, Bool, Option, none, some, List, [], ◌∷◌, arith, inl, inr,
  if◌then◌else◌, sym, ◌∙◌, subst, Option-cases,
}
use os_shell.Kernel.Future.{
  Future, Getting, Setting, outside, unready, asleep, passed, reading, got, before, stored, raised,
  finished, new_future, move_to, woken, set_step, get_step, run,
}
use os_shell.Kernel.Semaphore
use os_shell.Kernel.Semaphore.{Semaphore, acquired, blocked}
use os_shell.Kernel.Future.Sound.{
  Placed, HasRight, IsSound, value_lem, move_to-IsSound, woken-IsSound, wait_for-IsSound,
}

some-injective {ℓ} : {A : Type ℓ} {x y : A} → some x ≡ some y → x ≡ y
some-injective h = cc

none-ne-some {ℓ} : {A : Type ℓ} {x : A} → none ≢ some x
none-ne-some h = cc

-- The thread that sets is at `s`, and has a step: it cannot panic.
set_step_lem :
    (v : ℕ) (f : Future) (s : Setting)
    → IsSound v f
    → f.setting ≡ s
    → s ≢ finished
    → (f' : Future) × (set_step v f ≡ some f') × IsSound v f'
unfolding set_step
set_step_lem v f before ok e ne =
    let p : Placed v f.is_ready f.t before = subst (Placed v f.is_ready f.t) e ok.placed in
    (
      record f { t = v; setting = stored },
      rw (set_step, e) (rw p refl),
      record { placed = (p, refl); calm = ok.calm; past = ok.past; right = ok.right },
    )
set_step_lem v f stored ok e ne =
    let p : Placed v f.is_ready f.t stored = subst (Placed v f.is_ready f.t) e ok.placed in
    (
      record f { is_ready = true; setting = raised },
      rw (set_step, e) refl,
      record {
        placed = (refl, p.1);
        calm = λ h. absurd (ground arith);
        past = λ i h. refl;
        right = ok.right;
      },
    )
set_step_lem v f raised ok e ne =
    let p : Placed v f.is_ready f.t raised = subst (Placed v f.is_ready f.t) e ok.placed in
    let f1 = record f { setting = finished } in
    (
      woken (Semaphore.up f.go) f1,
      rw (set_step, e) refl,
      woken-IsSound v (Semaphore.up f.go) f1
          (record { placed = p; calm = ok.calm; past = ok.past; right = ok.right }) p.0,
    )
set_step_lem v f finished ok e ne = absurd (ne refl)

seen-IsSound :
    (v i : ℕ) (f : Future) (b : Bool)
    → IsSound v f
    → f.is_ready ≡ b
    → IsSound v (move_to i (if b then reading else unready) f)
seen-IsSound v i f true ok e = move_to-IsSound v i reading f ok (λ x. e) tt
seen-IsSound v i f false ok e = move_to-IsSound v i unready f ok (λ x. absurd (ground arith)) tt

get_step_lem :
    (v i : ℕ) (f f' : Future) (p : Getting)
    → IsSound v f
    → f.getting i ≡ p
    → get_step i f ≡ some f'
    → IsSound v f'
unfolding get_step
get_step_lem v i f f' outside ok e h =
    let made : move_to i (if f.is_ready then reading else unready) f ≡ f' =
      some-injective (sym (rw (get_step, e) refl) ∙ h) in
    subst (IsSound v) made (seen-IsSound v i f f.is_ready ok refl)
get_step_lem v i f f' unready ok e h =
    subst (IsSound v) (some-injective (sym (rw (get_step, e) refl) ∙ h)) (wait_for-IsSound v i f ok)
get_step_lem v i f f' asleep ok e h = absurd (none-ne-some (sym (rw (get_step, e) refl) ∙ h))
get_step_lem v i f f' passed ok e h =
    let ready : f.is_ready ≡ true = ok.past i (rw e refl) in
    subst (IsSound v) (some-injective (sym (rw (get_step, e) refl) ∙ h)) (
      woken-IsSound v (Semaphore.up f.go) (move_to i reading f)
        (move_to-IsSound v i reading f ok (λ x. ready) tt) ready)
get_step_lem v i f f' reading ok e h =
    let ready : f.is_ready ≡ true = ok.past i (rw e refl) in
    subst (IsSound v) (some-injective (sym (rw (get_step, e) refl) ∙ h)) (
      move_to-IsSound v i (got f.t) f ok (λ x. ready)
        (value_lem v f.is_ready f.t f.setting ok.placed ready))
get_step_lem v i f f' (got x) ok e h = absurd (none-ne-some (sym (rw (get_step, e) refl) ∙ h))

set_some :
    (v : ℕ) (f f' : Future)
    → IsSound v f
    → set_step v f ≡ some f'
    → (s : Setting) → f.setting ≡ s
    → IsSound v f'
unfolding set_step
set_some v f f' ok h finished e = absurd (none-ne-some (sym (rw (set_step, e) refl) ∙ h))
set_some v f f' ok h before e =
    let (f2, e2, ok2) = set_step_lem v f before ok e (λ d. cc) in
    subst (IsSound v) (some-injective (sym e2 ∙ h)) ok2
set_some v f f' ok h stored e =
    let (f2, e2, ok2) = set_step_lem v f stored ok e (λ d. cc) in
    subst (IsSound v) (some-injective (sym e2 ∙ h)) ok2
set_some v f f' ok h raised e =
    let (f2, e2, ok2) = set_step_lem v f raised ok e (λ d. cc) in
    subst (IsSound v) (some-injective (sym e2 ∙ h)) ok2

run-IsSound :
    (v : ℕ) (schedule : List (Option ℕ)) (f f' : Future)
    → IsSound v f
    → run v schedule f ≡ some f'
    → IsSound v f'
unfolding run
run-IsSound v [] f f' ok h = subst (IsSound v) (some-injective h) ok
run-IsSound v (none ∷ schedule) f f' ok h = elim (Option-cases (set_step v f)) [
  | inl e ↦ absurd (none-ne-some (sym (rw (run, e) refl) ∙ h))
  | inr (f1, e) ↦
      run-IsSound v schedule f1 f' (set_some v f f1 ok e f.setting refl)
        (sym (rw (run, e) refl) ∙ h)
]
run-IsSound v (some i ∷ schedule) f f' ok h = elim (Option-cases (get_step i f)) [
  | inl e ↦ absurd (none-ne-some (sym (rw (run, e) refl) ∙ h))
  | inr (f1, e) ↦
      run-IsSound v schedule f1 f' (get_step_lem v i f f1 (f.getting i) ok refl e)
        (sym (rw (run, e) refl) ∙ h)
]

new-IsSound : (v t : ℕ) → IsSound v (new_future t)
unfolding new_future
new-IsSound v t = record {
  placed = refl;
  calm = λ e. refl;
  past = λ i h. absurd (ground arith);
  right = λ i. tt;
}

-- After any schedule of the steps of the thread that sets `v` and of the threads that get: who has got
-- something has got `v`, and that after the future was ready; and the thread that sets can take its
-- next step until it has finished, so that its assertion does not fail and it does not wait.
pub future_safe :
    (v t : ℕ) (schedule : List (Option ℕ)) (f : Future)
    → run v schedule (new_future t) ≡ some f
    → ((i x : ℕ) → f.getting i ≡ got x → (x ≡ v) × (f.is_ready ≡ true))
      × (f.setting ≢ finished → (f' : Future) × (set_step v f ≡ some f'))
future_safe v t schedule f h =
    let ok = run-IsSound v schedule (new_future t) f (new-IsSound v t) h in
    (
      λ i x e. (subst (HasRight v) e (ok.right i), ok.past i (rw e refl)),
      λ ne. let (f', e, rest) = set_step_lem v f f.setting ok refl ne in (f', e),
    )
