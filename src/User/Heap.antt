-- ===== src/User/Heap.antt =====
-- The first-fit heap of nikshita.dir/sbin/heap.c.
-- The array is a function from indices to C `int`s, and a pointer into it is the index that it points
-- to; the null pointer is `none`. `sanity` only returns its argument. An index that is read from the
-- array is never negative in a heap that the operations built; `pos_part` reads it.
pub mod Cells
pub mod Payload
pub mod Links
pub mod Remove
pub mod State
pub mod Open
pub mod Gap
pub mod Sizes
pub mod Fill
pub mod Init
pub mod Kept
pub mod Split
pub mod Malloc
pub mod Joins
pub mod Right
pub mod Left
pub mod Free
use os_shell.Common.{
  ℕ, zero, suc, ◌+◌, ◌-◌, ◌/◌, ◌%◌, ◌^◌, Bool, true, false, not, Option, none, some, ltb, leb, ◌==◌,
  if◌then◌else◌, max,
}
use os_shell.Common.Int.{ℤ, pos, negsuc, neg_of, pos_part, neg_part}

abbrev pub Array : Type 0
Array = ℕ → ℤ

abbrev pub put : ℕ → ℤ → Array → Array
put i v array c = if c == i then v else array c

pub record Heap : Type 0 where
  pub array : Array
  pub avail : ℕ

abbrev pub heap_len : ℕ
heap_len = 0x100000

abbrev pub abs : ℤ → ℕ
abs x = pos_part x + neg_part x

abbrev pub size : Array → ℕ → ℕ
size array i = abs (array i)

abbrev pub header_from_footer : Array → ℕ → ℕ
header_from_footer array i = i + 1 - size array i

abbrev pub footer_from_header : Array → ℕ → ℕ
footer_from_header array i = i + size array i - 1

abbrev pub left : Array → ℕ → ℕ
left array i = header_from_footer array (i - 1)

abbrev pub right : Array → ℕ → ℕ
right array i = i + size array i

-- `next1` and `prev1` read the links, `next` and `prev` write them.
abbrev pub next1 : Array → ℕ → ℕ
next1 array i = pos_part (array (i + 1))

abbrev pub prev1 : Array → ℕ → ℕ
prev1 array i = pos_part (array (i + 2))

abbrev pub next : ℕ → ℕ → Array → Array
next i x = put (i + 1) (pos x)

abbrev pub prev : ℕ → ℕ → Array → Array
prev i x = put (i + 2) (pos x)

abbrev pub is_avail : Array → ℕ → Bool
is_avail array i = ltb 0 (pos_part (array i))

abbrev pub is_taken : Array → ℕ → Bool
is_taken array i = ltb 0 (neg_part (array i))

unfoldable pub remove : ℕ → Heap → Heap
remove i h =
    let prev_index = prev1 h.array i in
    let next_index = next1 h.array i in
    let h' =
      if prev_index == 0
      then record h { avail = next_index }
      else record h { array = next prev_index next_index h.array } in
    if next_index == 0 then h' else record h' { array = prev next_index prev_index h'.array }

-- The header, and the footer that it leads to.
abbrev pub set_tags : ℕ → ℤ → Array → Array
set_tags i v array = let array' = put i v array in put (footer_from_header array' i) v array'

unfoldable pub make_avail : ℕ → ℕ → Heap → Heap
make_avail i ints h =
    let a = prev i 0 (next i h.avail (set_tags i (pos ints) h.array)) in
    record { array = if h.avail == 0 then a else prev h.avail i a; avail = i }

unfoldable pub make_taken : ℕ → ℕ → Heap → Heap
make_taken i ints h = record h { array = set_tags i (neg_of ints) h.array }

unfoldable pub heap_init : Heap → Heap
heap_init h = make_taken (heap_len - 2) 2 (make_avail 2 (heap_len - 4) (make_taken 0 2 h))

-- The block that is found, from there on.
unfoldable pub take_block : ℕ → ℕ → Heap → Heap
take_block p ints h =
    let sz = size h.array p in
    let h' = remove p h in
    let extra = sz - ints in
    if leb 4 extra then make_avail (p + ints) extra (make_taken p ints h') else make_taken p sz h'

-- The outer `none` is that the rounds run out; the inner one is the null pointer.
unfoldable pub malloc_loop : ℕ → ℕ → ℕ → Heap → Option (Option ℕ × Heap)
malloc_loop rounds ints zero h = some (none, h)
malloc_loop zero ints (suc p) h = none
malloc_loop (suc rounds) ints (suc p) h =
    let rest = malloc_loop rounds ints (next1 h.array (suc p)) h in
    if leb ints (size h.array (suc p))
    then some (some (suc p + 1), take_block (suc p) ints h)
    else rest

-- `size_t` has 32 bits.
abbrev pub ints_of : ℕ → ℕ
ints_of bytes = max 4 ((bytes + 3) % 2 ^ 32 / 4 + 2)

-- No list of free blocks is longer than the array.
unfoldable pub malloc : ℕ → Heap → Option (Option ℕ × Heap)
malloc bytes h =
    if bytes == 0 then some (some 0, h) else malloc_loop heap_len (ints_of bytes) h.avail h

-- Behind the tests of the pointer.
unfoldable pub free_block : ℕ → Heap → Heap
free_block idx h =
    let sz = size h.array idx in
    let left_index = left h.array idx in
    let right_index = right h.array idx in
    let merge_left = is_avail h.array left_index in
    let h1 = if merge_left then remove left_index h else h in
    let idx1 = if merge_left then left_index else idx in
    let sz1 = if merge_left then sz + size h1.array left_index else sz in
    let merge_right = is_avail h1.array right_index in
    let h2 = if merge_right then remove right_index h1 else h1 in
    let sz2 = if merge_right then sz1 + size h2.array right_index else sz1 in make_avail idx1 sz2 h2

unfoldable pub free : Option ℕ → Heap → Heap
free none h = h
free (some zero) h = h
free (some (suc idx)) h = if is_taken h.array idx then free_block idx h else h
