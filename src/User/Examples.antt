-- ===== src/User/Examples.antt =====
-- The theorems on the user programs at concrete inputs.
use os_shell.Common.{take, ℕ, ◌-◌, ◌≡◌, Bool, Option, some, List, [], ◌∷◌, ◌++◌, arith}
use os_shell.Common.Int.{pos}
use os_shell.User.Strings.{strstr}
use os_shell.User.Strings.Search.{IsFirst, strstr_lem}
use os_shell.User.Login.{login, bob, test}
use os_shell.User.Login.Accounts.{accounts, Accepts, login_lem}
use os_shell.Common.{replicate, length-replicate}
use os_shell.User.Input.{enter, backspace, read_input_echo}
use os_shell.User.Input.Texts.{edits}
use os_shell.User.Input.Edits.{Returns, read_input_echo_lem}
use os_shell.User.Grep.{grep}
use os_shell.User.Grep.Lines.{AreLines, Printed, grep_lem}
use os_shell.User.Heap.{Array, Heap, heap_len, heap_init, take_block, ints_of, malloc, free}
use os_shell.User.Heap.Cells.{Block}
use os_shell.User.Heap.State.{IsHeap}
use os_shell.User.Heap.Open.{taken_block, free_block_of}
use os_shell.User.Heap.Payload.{payloads}
use os_shell.User.Heap.Init.{heap_init_lem}
use os_shell.User.Heap.Split.{take_block_lem}
use os_shell.User.Heap.Malloc.{Mallocs, malloc_lem}
use os_shell.User.Heap.Joins.{nothing}
use os_shell.User.Heap.Free.{free_lem}

abbrev one : List ℕ
one = 1 ∷ []

strstr_lem_example :
    (o : Option ℕ) × (strstr (5 ∷ 1 ∷ 2 ∷ 0 ∷ []) (1 ∷ 2 ∷ 0 ∷ []) ≡ some o)
    × IsFirst (5 ∷ 1 ∷ 2 ∷ []) (1 ∷ 2 ∷ []) o
strstr_lem_example =
    strstr_lem (5 ∷ 1 ∷ 2 ∷ []) (1 ∷ 2 ∷ []) [] [] (omega arith, (omega arith, (omega arith, tt)))
      (omega arith, (omega arith, tt))

login_lem_example :
    (b : Bool) × (login (bob ++ 0 ∷ []) ([] ++ 0 ∷ []) ≡ some b) × Accepts b accounts bob []
login_lem_example = login_lem bob [] [] [] (omega arith, (omega arith, (omega arith, tt))) tt

-- "ac", a backspace, "b" and Enter, in a buffer of four bytes.
abbrev typed_keys : List ℕ
typed_keys = b'a' ∷ b'c' ∷ backspace ∷ b'b' ∷ []

abbrev no_tab : List ℕ → ℕ → List ℕ
no_tab buf n = []

read_input_echo_lem_example :
    Returns 4
      (edits 3 [] typed_keys)
      (read_input_echo no_tab 4 (replicate 4 0) (typed_keys ++ enter ∷ []))
read_input_echo_lem_example =
    read_input_echo_lem no_tab (replicate 4 0) typed_keys [] (omega arith) (omega arith)
      (omega arith, (omega arith, (omega arith, (omega arith, tt))))

abbrev two_lines : List ℕ
two_lines = bob ++ 10 ∷ test

grep_lem_example :
    (ls : List (List ℕ)) × (out : List ℕ) × AreLines ls two_lines
    × (grep (take 1000) (bob ++ 0 ∷ []) (replicate 1024 0) two_lines ≡ some (some out))
    × Printed (take 1000) bob ls out
grep_lem_example =
    grep_lem (take 1000) bob [] (omega arith, (omega arith, (omega arith, tt))) (replicate 1024 0)
      two_lines (length-replicate {A = ℕ} 1024 0) (ground arith)

-- A heap over an array of sevens.
abbrev sevens : Array
sevens c = pos 7

abbrev new_heap : Heap
new_heap = heap_init (record { array = sevens; avail = 0 })

abbrev whole_block : List Block
whole_block = free_block_of (heap_len - 4) ∷ []

malloc_lem_example : Mallocs (ints_of 10) new_heap whole_block (malloc 10 new_heap)
malloc_lem_example =
    malloc_lem new_heap whole_block (2 ∷ []) (heap_init_lem sevens) 10 (omega arith)

-- Its first six `int`s taken.
abbrev one_taken : Heap
one_taken = take_block 2 6 new_heap

abbrev one_list : List ℕ
one_list =
    (take_block_lem new_heap [] (heap_len - 4) [] (2 ∷ []) 6 (heap_init_lem sevens) (omega arith)
      (omega arith)).0

one_taken-IsHeap : IsHeap one_taken (taken_block 6 ∷ free_block_of (heap_len - 10) ∷ []) one_list
one_taken-IsHeap =
    (take_block_lem new_heap [] (heap_len - 4) [] (2 ∷ []) 6 (heap_init_lem sevens) (omega arith)
      (omega arith)).1

abbrev rest_block : List Block
rest_block = free_block_of (heap_len - 10) ∷ []

free_lem_example :
    let h' = free (some 3) one_taken in
    (ys : List ℕ) × IsHeap h' whole_block ys
    × (payloads h'.array 2 [] ≡ payloads one_taken.array 2 [])
    × (payloads h'.array 8 rest_block ≡ payloads one_taken.array 8 rest_block)
free_lem_example = free_lem one_taken nothing 6 rest_block one_list one_taken-IsHeap
