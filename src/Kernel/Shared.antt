-- ===== src/Kernel/Shared.antt =====
-- Reference counting: kernel/shared.h. The store is the objects, known by numbers in the order in
-- which they are made, and the `Shared` variables, in the order in which they are constructed.
pub mod Tally
pub mod Counted
pub mod Counts
pub mod Histories
use os_shell.Common.{
  ℕ, ◌+◌, ◌-◌, ◌%◌, ◌^◌, ◌<◌, Bool, true, false, not, ◌&&◌, Option, none, some, List, [], ◌∷◌, ◌++◌,
  ltb, ◌==◌, if◌then◌else◌, length, get_or, set,
}

-- Each object has its `ref_count`, and has or has not been deleted.
pub record Store : Type 0 where
  pub ref_count : ℕ → ℕ
  pub alive : ℕ → Bool
  pub made : ℕ
  pub handles : List (Option ℕ)

abbrev pub no_objects : Store
no_objects = record { ref_count = λ o. 0; alive = λ o. false; made = 0; handles = [] }

abbrev pub update {ℓ} : {A : Type ℓ} → (ℕ → A) → ℕ → A → ℕ → A
update f i v j = if j == i then v else f j

-- The `ptr` of a variable.
abbrev pub ptr : Store → ℕ → Option ℕ
ptr s h = get_or s.handles h none

abbrev pub put : Store → ℕ → Option ℕ → Store
put s h p = record s { handles = set s.handles h p }

unfoldable pub add : Option ℕ → Store → Store
add none s = s
add (some o) s = record s { ref_count = update s.ref_count o ((s.ref_count o + 1) % 2 ^ 32) }

-- What becomes of a variable's `ptr` and of the store.
unfoldable pub drop : Option ℕ → Store → Option ℕ × Store
drop none s = (none, s)
drop (some o) s =
    let new_count = (s.ref_count o + 2 ^ 32 - 1) % 2 ^ 32 in
    let s' = record s { ref_count = update s.ref_count o new_count } in
    if new_count == 0 then (none, record s' { alive = update s.alive o false }) else (some o, s')

-- `ptr == rhs`
abbrev pub same_ptr : Option ℕ → Option ℕ → Bool
same_ptr none none = true
same_ptr none (some q) = false
same_ptr (some p) none = false
same_ptr (some p) (some q) = p == q

-- A new variable.
abbrev pub construct : Option ℕ → Store → Store
construct p s = record s { handles = s.handles ++ p ∷ [] }

-- `Shared<T> a{}`
pub construct_null : Store → Store
construct_null s = construct none s

-- `Shared<T>::make()`, and `Shared<T>(new T())`
pub make : Store → Store
unfolding add
make s =
    let s' = record s {
      ref_count = update s.ref_count s.made 0;
      alive = update s.alive s.made true;
      made = s.made + 1;
    } in
    add (some s.made) (construct (some s.made) s')

-- `Shared<T> b{a}`
pub construct_copy : ℕ → Store → Store
unfolding add
construct_copy rhs s = add (ptr s rhs) (construct (ptr s rhs) s)

-- `Shared<T> d = g()`
pub construct_move : ℕ → Store → Store
construct_move rhs s = construct (ptr s rhs) (put s rhs none)

-- The end of a variable's life; its place in the list stays.
pub destroy : ℕ → Store → Store
unfolding drop
destroy h s = put (drop (ptr s h) s).1 h none

-- `d = rhs` for a plain pointer.
pub assign_raw : ℕ → Option ℕ → Store → Store
unfolding add drop
assign_raw h rhs s =
    if not (same_ptr (ptr s h) rhs)
    then (let (p, s') = drop (ptr s h) s in add rhs (put s' h rhs))
    else s

-- `d = a`
pub assign : ℕ → ℕ → Store → Store
unfolding assign_raw
assign h rhs s = assign_raw h (ptr s rhs) s

-- `d = g()`
pub assign_move : ℕ → ℕ → Store → Store
unfolding drop
assign_move h rhs s =
    let (p, s') = drop (ptr s h) s in let s1 = put s' h p in put (put s1 h (ptr s1 rhs)) rhs none

-- What a program can do with its variables; a raw pointer that it assigns is one that it reads from
-- a variable.
pub data Op : Type 0 where
  make_op null_op : Op
  copy_op move_op destroy_op : ℕ → Op
  assign_op assign_raw_op assign_move_op : ℕ → ℕ → Op

-- There is no operation on a variable that is not there.
pub apply : Op → Store → Store
unfolding make construct_null construct_copy construct_move destroy assign assign_raw assign_move
apply make_op s = make s
apply null_op s = construct_null s
apply (copy_op rhs) s = if ltb rhs (length s.handles) then construct_copy rhs s else s
apply (move_op rhs) s = if ltb rhs (length s.handles) then construct_move rhs s else s
apply (destroy_op h) s = if ltb h (length s.handles) then destroy h s else s
apply (assign_op h rhs) s =
    if ltb h (length s.handles) && ltb rhs (length s.handles) then assign h rhs s else s
apply (assign_raw_op h rhs) s =
    if ltb h (length s.handles) && ltb rhs (length s.handles) then assign_raw h (ptr s rhs) s else s
apply (assign_move_op h rhs) s =
    if ltb h (length s.handles) && ltb rhs (length s.handles) then assign_move h rhs s else s

pub run : List Op → Store → Store
unfolding apply
run [] s = s
run (op ∷ ops) s = run ops (apply op s)
