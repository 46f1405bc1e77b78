-- ===== src/Kernel/Process.antt =====
-- The tables of a process: kernel/process.h and kernel/process.cc.
-- A `Shared<T>` is an optional reference, a number. An `int` is its 32-bit pattern, so that -1 is
-- 2 ^ 32 - 1; a mask of the upper four or the lower 28 bits is a division or a remainder.
pub mod Tables
pub mod Semaphores
pub mod Files
pub mod Close
pub mod Children
pub mod Fork
use os_shell.Common.{
  ℕ, zero, suc, ◌+◌, ◌-◌, ◌*◌, ◌/◌, ◌%◌, ◌^◌, Bool, true, false, not, ◌&&◌, ◌||◌, Option, none,
  some, List, [], ◌∷◌, ltb, leb, ◌==◌, if◌then◌else◌, is_some, get_or, set,
}

abbrev pub n_sem : ℕ
n_sem = 10

abbrev pub n_child : ℕ
n_child = 10

abbrev pub n_file : ℕ
n_file = 10

abbrev pub minus_one : ℕ
minus_one = 2 ^ 32 - 1

-- A table of references; a slot that is out of range is not there.
abbrev pub Table : Type 0
Table = List (Option ℕ)

abbrev pub slot : Table → ℕ → Option ℕ
slot table i = get_or table i none

pub record Process : Type 0 where
  pub files : Table
  pub sems : Table
  pub children : Table
  pub output : ℕ

-- `id & INDEX_MASK`
abbrev pub index_of : ℕ → ℕ
index_of id = id % 2 ^ 28

-- `id & 0xF0000000`, less its 28 zeros: FL is 0, PROC is 1 and SEM is 2.
abbrev pub kind_of : ℕ → ℕ
kind_of id = id / 2 ^ 28

abbrev pub fl : ℕ
fl = 0

abbrev pub proc : ℕ
proc = 1

abbrev pub sem : ℕ
sem = 2

-- `KIND | index`
abbrev pub id_of : ℕ → ℕ → ℕ
id_of kind index = kind * 2 ^ 28 + index

-- `none` is the -1 of the source.
abbrev table_index : ℕ → ℕ → ℕ → Option ℕ
table_index kind size id =
    if not (kind_of id == kind)
    then none
    else if leb size (index_of id)
    then none
    else some (index_of id)

unfoldable pub get_semaphore_index : ℕ → Option ℕ
get_semaphore_index = table_index sem n_sem

unfoldable pub get_child_index : ℕ → Option ℕ
get_child_index = table_index proc n_child

unfoldable pub get_file_index : ℕ → Option ℕ
get_file_index = table_index fl n_file

-- The loops that look for a slot that holds null, from slot `i` on.
unfoldable pub free_slot : ℕ → Table → Option ℕ
free_slot i [] = none
free_slot i (none ∷ table) = some i
free_slot i (some r ∷ table) = free_slot (i + 1) table

-- `fresh` is the reference of the semaphore that `Shared<Semaphore>::make(init)` makes.
pub new_semaphore : ℕ → Process → ℕ × Process
new_semaphore fresh p = elim (free_slot 0 p.sems) [
  | none ↦ (minus_one, p)
  | some i ↦ (id_of sem (index_of i), record p { sems = set p.sems i (some fresh) })
]

pub get_semaphore : ℕ → Process → Option ℕ
get_semaphore id p =
    if leb n_sem (index_of id) || not (kind_of id == sem) then none else slot p.sems (index_of id)

unfoldable pub get_file : ℕ → Process → Option ℕ
unfolding get_file_index
get_file fd p = elim (get_file_index fd) [ none ↦ none | some i ↦ slot p.files fd ]

pub set_file : ℕ → Process → ℕ × Process
set_file file p = elim (free_slot 0 p.files) [
  | none ↦ (minus_one, p)
  | some i ↦ (i, record p { files = set p.files i (some file) })
]

-- One table's part of `close`: -1 where the slot is null already, else the slot is cleared.
abbrev clear_slot : Table → ℕ → Option Table
clear_slot table i = if is_some (slot table i) then some (set table i none) else none

abbrev closed {ℓ} : {A : Type ℓ} → Option A → (A → Process) → Process → ℕ × Process
closed none f p = (minus_one, p)
closed (some table) f p = (0, f table)

pub close : ℕ → Process → ℕ × Process
unfolding get_semaphore_index get_child_index get_file_index
close id p = elim (get_semaphore_index id) [
  | some i ↦ closed (clear_slot p.sems i) (λ t. record p { sems = t }) p
  | none ↦ elim (get_child_index id) [
    | some i ↦ closed (clear_slot p.children i) (λ t. record p { children = t }) p
    | none ↦ elim (get_file_index id) [
      | some i ↦ closed (clear_slot p.files i) (λ t. record p { files = t }) p
      | none ↦ (minus_one, p)
    ]
  ]
]

-- `fd < 0`
abbrev pub is_negative : ℕ → Bool
is_negative w = leb (2 ^ 31) w

abbrev bad_fd : ℕ → Bool
bad_fd fd = is_negative fd || leb n_file fd

pub dup2 : ℕ → ℕ → Process → ℕ × Process
unfolding close
dup2 oldfd newfd p =
    if oldfd == newfd
    then (newfd, p)
    else if bad_fd oldfd || not (is_some (slot p.files oldfd))
    then (minus_one, p)
    else if bad_fd newfd
    then (minus_one, p)
    else (let p' = (close newfd p).1 in
        (newfd, record p' { files = set p'.files newfd (slot p'.files oldfd) }))

-- The return value, what `*ptr` is set to, and the process.
abbrev pub Waited : Type 0
Waited = ℕ × Option ℕ × Process

-- `output` reads a future: `none` while nothing has been set, and then `get` blocks, as `wait` does.
unfoldable pub wait : (output : ℕ → Option ℕ) → ℕ → Process → Option Waited
unfolding get_child_index
wait output id p = elim (get_child_index id) [
  | none ↦ some (minus_one, none, p)
  | some i ↦ elim (slot p.children i) [
    | none ↦ some (minus_one, none, p)
    | some e ↦ elim (output e) [
      | none ↦ none
      | some v ↦ some (0, some v, record p { children = set p.children i none })
    ]
  ]
]
