-- ===== src/Kernel/Pipe/Valid.antt =====
-- The representation invariant of the pipe: the two semaphores count what `count` counts.
use os_shell.Common.{
  ℕ, ◌+◌, ◌-◌, ◌%◌, ◌≤◌, ◌<◌, ◌≡◌, List, ◌++◌, ◌∷◌, [], arith, length, length-set, get_or,
}
use os_shell.Kernel.Pipe.Cells.{cells, cells_first, cells-set}
use os_shell.Kernel.Semaphore
use os_shell.Kernel.Semaphore.{Semaphore, acquired}
use native.Mathlib.Numerals.{add-one}
use os_shell.Kernel.Pipe.{Pipe, max_buffer_size, make, put_byte, get_byte}

-- What holds of the fields other than the lock, also in the middle of a call.
pub record IsRing (p : Pipe) : Type 0 where
  pub storage : length p.buffer ≡ max_buffer_size
  pub read_in : p.read_index < max_buffer_size
  pub write_at : p.write_index ≡ (p.read_index + p.count) % max_buffer_size
  pub fits : p.count ≤ max_buffer_size
  pub readable : p.read_sem ≡ Semaphore.make p.count
  pub writable : p.write_sem ≡ Semaphore.make (max_buffer_size - p.count)

-- Between two calls the lock is free as well.
pub record IsValid (p : Pipe) : Type 0 where
  pub ring : IsRing p
  pub free : p.lock ≡ Semaphore.make 1

-- The bytes in the pipe, oldest first.
abbrev pub contents : Pipe → List ℕ
contents p = cells p.buffer p.read_index p.count

pub down_lem :
    (me n : ℕ) → 0 < n → Semaphore.down me (Semaphore.make n) ≡ acquired (Semaphore.make (n - 1))
unfolding Semaphore.down
down_lem me n h = ground arith

pub up_lem :
    (n : ℕ) → n ≤ max_buffer_size → (Semaphore.up (Semaphore.make n)).1 ≡ Semaphore.make (n + 1)
unfolding Semaphore.up
up_lem n h = ground arith

-- A byte goes in behind the others.
pub put_byte-IsRing :
    (b : ℕ) (p : Pipe)
    → IsRing p
    → p.count < max_buffer_size
    → IsRing (put_byte b (Semaphore.make (max_buffer_size - p.count - 1)) p)
unfolding put_byte
put_byte-IsRing b p v h = ground (arith, length-set p.buffer p.write_index b, up_lem p.count)

pub contents-put_byte :
    (b : ℕ) (s : Semaphore) (p : Pipe)
    → IsRing p
    → p.count < max_buffer_size
    → contents (put_byte b s p) ≡ contents p ++ b ∷ []
unfolding put_byte
contents-put_byte b s p v h =
    rw (add-one p.count)
      (cells-set p.buffer p.count p.read_index p.write_index b v.storage h v.write_at)

pub get_byte-IsRing :
    (p : Pipe) → IsRing p → 0 < p.count → IsRing (get_byte (Semaphore.make (p.count - 1)) p)
unfolding get_byte
get_byte-IsRing p v h = ground (arith, up_lem (max_buffer_size - p.count))

pub contents-get_byte :
    (s : Semaphore) (p : Pipe)
    → IsRing p
    → 0 < p.count
    → contents p ≡ get_or p.buffer p.read_index 0 ∷ contents (get_byte s p)
unfolding get_byte
contents-get_byte s p v h =
    let here : p.read_index % 1024 ≡ p.read_index = omega (arith, v.read_in) in
    rw here at
      (cells_first p.buffer p.count p.read_index ((p.read_index + 1) % 1024) h (omega arith))

pub make-IsValid : (storage : List ℕ) → length storage ≡ max_buffer_size → IsValid (make storage)
unfolding make
make-IsValid storage h = ground arith

pub contents-make : (storage : List ℕ) → contents (make storage) ≡ []
unfolding make
contents-make storage = λ i. []
