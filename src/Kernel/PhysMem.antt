-- ===== src/Kernel/PhysMem.antt =====
-- kernel/physmem.h and kernel/physmem.cc: the frames of physical memory. Memory is seen by words: a
-- word is known by its address. Each operation holds the lock, so it is one step.
pub mod Valid
pub mod Frames
use os_shell.Common.{
  ℕ, ◌+◌, ◌%◌, ◌^◌, Bool, ◌&&◌, Option, none, some, leb, ltb, ◌==◌, if◌then◌else◌,
}

abbrev pub frame_size : ℕ
frame_size = 4096

-- A `Frame *` is an address, and its `next` field the word that stands there.
pub record Memory : Type 0 where
  pub words : ℕ → ℕ
  pub first_free : ℕ
  pub avail : ℕ
  pub limit : ℕ

-- `offset(pa)`
abbrev pub offset : ℕ → ℕ
offset pa = pa % frame_size

-- Is the address in the frame that starts at `p`?
abbrev pub in_frame : ℕ → ℕ → Bool
in_frame p a = leb p a && ltb a (p + frame_size)

-- `bzero((void*)p, FRAME_SIZE)`
abbrev pub bzero_frame : ℕ → (ℕ → ℕ) → ℕ → ℕ
bzero_frame p words a = if in_frame p a then 0 else words a

abbrev pub store : ℕ → ℕ → (ℕ → ℕ) → ℕ → ℕ
store p v words a = if a == p then v else words a

-- From the assertion on; `none` is a panic.
abbrev hand_out : ℕ → Memory → Option (ℕ × Memory)
hand_out p m = if offset p == 0 then some (p, record m { words = bzero_frame p m.words }) else none

unfoldable pub alloc_frame : Memory → Option (ℕ × Memory)
alloc_frame m =
    if m.first_free == 0
    then if m.avail == m.limit
      then none
      else hand_out m.avail (record m { avail = (m.avail + frame_size) % 2 ^ 32 })
    else hand_out m.first_free (record m { first_free = m.words m.first_free })

unfoldable pub dealloc_frame : ℕ → Memory → Option Memory
dealloc_frame p m =
    if offset p == 0
    then some (record m { words = store p m.first_free m.words; first_free = p })
    else none

-- The fields that `init` sets, over the memory as it stands.
unfoldable pub init : ℕ → ℕ → (ℕ → ℕ) → Option Memory
init start size words =
    if offset start == 0 && offset size == 0
    then some
        (record { words = words; first_free = 0; avail = start; limit = (start + size) % 2 ^ 32 })
    else none
