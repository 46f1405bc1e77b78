-- ===== src/User/Heap/Init.antt =====
-- The first heap, and what the invariant says of any heap.
use os_shell.Common.{◌-◌, refl, [], ◌∷◌, arith}
use os_shell.User.Heap.{Array, heap_len, make_taken, make_avail, heap_init}
use os_shell.User.Heap.State.{IsHeap}
use os_shell.User.Heap.Open.{free_block_of}

-- `heap_init` makes one free block of all but the two walls, whatever the array held.
pub heap_init_lem :
    (a : Array)
    → IsHeap
        (heap_init (record { array = a; avail = 0 }))
        (free_block_of (heap_len - 4) ∷ [])
        (2 ∷ [])
unfolding heap_init make_taken make_avail
heap_init_lem a = record {
  pre_tiles = (refl, refl, tt);
  post_tiles = tt;
  pre_ends = refl;
  post_ends = refl;
  pre_big = (omega arith, tt);
  post_big = tt;
  ordered = omega arith;
  walls = (refl, refl, refl, refl);
  lists = ((refl, refl, tt), refl);
  spaced = (tt, tt);
  same = λ y. ground arith;
  counted = refl;
}
