-- ===== src/Kernel/Queue.antt =====
-- kernel/queue.h: an intrusive singly linked queue. The elements are threads (or anything with a
-- `next` field), known by address; 0 is the null pointer. The lock that an instance may take makes
-- each operation one step.
pub mod Fifo
use os_shell.Common.{ℕ, Bool, ◌==◌, if◌then◌else◌}

-- The `next` fields in memory.
abbrev pub Links : Type 0
Links = ℕ → ℕ

abbrev pub update : Links → ℕ → ℕ → Links
update next t v a = if a == t then v else next a

pub record Queue : Type 0 where
  pub first : ℕ
  pub last : ℕ

abbrev pub empty : Queue
empty = record { first = 0; last = 0 }

-- `t->next = nullptr`, then the link from the element before, if there is one.
unfoldable pub add : ℕ → Queue → Links → Queue × Links
add t q next =
    if q.first == 0
    then (record { first = t; last = t }, update next t 0)
    else (record q { last = t }, update (update next t 0) q.last t)

-- The element comes first; 0 says that there is none. Its `next` field stays as it is.
unfoldable pub remove : Queue → Links → ℕ × Queue
remove q next =
    if q.first == 0
    then (0, q)
    else (q.first, if next q.first == 0 then empty else record q { first = next q.first })

unfoldable pub remove_all : Queue → ℕ × Queue
remove_all q = (q.first, empty)
