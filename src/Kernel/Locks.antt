-- ===== src/Kernel/Locks.antt =====
-- InterruptSafeLock of kernel/atomic.h. Cores lock and unlock one lock in any interleaving of the
-- accesses to its fields; each core has its interrupt flag.
pub mod Kept
pub mod Safe
use os_shell.Common.{ℕ, Bool, true, false, List, [], ◌∷◌, if◌then◌else◌}
use os_shell.Kernel.Shared.{update}

-- Where a core stands: before `lock`; before another round of its loop; behind Interrupts::disable,
-- which returned the value; behind an exchange that lost or won; behind `lock`; in `unlock`, behind
-- the read of `was`, and behind the store to `taken`.
pub data Position : Type 0 where
  outside again holding : Position
  tried lost won releasing released : Bool → Position

-- `is_disabled` is the interrupt flag, `own` the one that the core set outside.
pub record Core : Type 0 where
  pub is_disabled : Bool
  pub own : Bool
  pub position : Position

pub record Lock : Type 0 where
  pub taken : Bool
  pub was : Bool
  pub cores : ℕ → Core

-- A fresh lock, with the flags that the cores have.
unfoldable pub new_lock : (ℕ → Bool) → Lock
new_lock flags = record {
  taken = false;
  was = false;
  cores = λ c. record { is_disabled = flags c; own = flags c; position = outside };
}

abbrev pub put : ℕ → Core → Lock → Lock
put c core s = record s { cores = update s.cores c core }

-- Interrupts::disable: the flag that was, and the core with the flag set.
unfoldable pub disable : Core → Bool × Core
disable core =
    let was_disabled = core.is_disabled in
    (was_disabled, if was_disabled then core else record core { is_disabled = true })

-- Interrupts::restore
unfoldable pub restore : Bool → Core → Core
restore was_disabled core = if was_disabled then core else record core { is_disabled = false }

-- A step of core `c` where it stands.
unfoldable pub step : ℕ → Position → Lock → Lock
unfolding disable restore
step c outside s =
    let (was_disabled, core) = disable (s.cores c) in
    put c (record core { position = tried was_disabled }) s
step c again s =
    let (was_disabled, core) = disable (s.cores c) in
    put c (record core { position = tried was_disabled }) s
step c (tried was_disabled) s =
    put c
      (record (s.cores c) { position = if s.taken then lost was_disabled else won was_disabled })
      (record s { taken = true })
step c (lost was_disabled) s =
    put c (record (restore was_disabled (s.cores c)) { position = again }) s
step c (won was_disabled) s =
    put c (record (s.cores c) { position = holding }) (record s { was = was_disabled })
step c holding s = put c (record (s.cores c) { position = releasing s.was }) s
step c (releasing was_disabled) s =
    put c (record (s.cores c) { position = released was_disabled }) (record s { taken = false })
step c (released was_disabled) s =
    put c (record (restore was_disabled (s.cores c)) { position = outside }) s

-- The code outside `lock` and `unlock` sets the flag.
unfoldable pub set_flag : ℕ → Bool → Position → Lock → Lock
set_flag c flag outside s = put c (record { is_disabled = flag; own = flag; position = outside }) s
set_flag c flag _ s = s

pub data Event : Type 0 where
  step_event : ℕ → Event
  flag_event : ℕ → Bool → Event

unfoldable pub run : List Event → Lock → Lock
run [] s = s
run (step_event c ∷ es) s = run es (step c (s.cores c).position s)
run (flag_event c flag ∷ es) s = run es (set_flag c flag (s.cores c).position s)
