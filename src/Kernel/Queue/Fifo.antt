-- ===== src/Kernel/Queue/Fifo.antt =====
-- The linked queue holds a list of distinct elements, first in, first out.
use os_shell.Common.{
  ℕ, ◌≡◌, refl, ◌≢◌, List, ◌++◌, ◌∷◌, [], arith, All, All-append, ==_ne, ==_refl, sym, subst, ◌∙◌,
}
use os_shell.Kernel.Queue.{Links, update, Queue, add, remove, remove_all}

abbrev pub IsFresh : ℕ → List ℕ → Type 0
IsFresh t = All (λ x. t ≢ x)

-- From `p` the links lead through the distinct elements of the list to the null pointer.
abbrev pub Chain : Links → ℕ → List ℕ → Type 0
Chain next p [] = p ≡ 0
Chain next p (x ∷ xs) = (p ≡ x) × (x ≢ 0) × IsFresh x xs × Chain next (next x) xs

abbrev pub last_of : List ℕ → ℕ
last_of [] = 0
last_of (x ∷ []) = x
last_of (x ∷ y ∷ xs) = last_of (y ∷ xs)

pub record Holds (q : Queue) (next : Links) (xs : List ℕ) : Type 0 where
  pub chain : Chain next q.first xs
  pub end : q.last ≡ last_of xs

last_of-ne : (t x : ℕ) (xs : List ℕ) → IsFresh t (x ∷ xs) → t ≢ last_of (x ∷ xs)
last_of-ne t x [] f = f.0
last_of-ne t x (y ∷ xs) f = last_of-ne t y xs f.1

last_of-append : (t x : ℕ) (xs : List ℕ) → last_of ((x ∷ xs) ++ t ∷ []) ≡ t
last_of-append t x [] = refl
last_of-append t x (y ∷ xs) = last_of-append t y xs

-- The last link of a chain is turned to a new element.
Chain-extend :
    (next : Links) (t p x : ℕ) (xs : List ℕ)
    → t ≢ 0
    → IsFresh t (x ∷ xs)
    → Chain next p (x ∷ xs)
    → Chain (update (update next t 0) (last_of (x ∷ xs)) t) p ((x ∷ xs) ++ t ∷ [])
Chain-extend next t p x [] ne f c =
    (c.0, c.1, ((λ e. f.0 (sym e)), tt), (rw (==_refl x), ne, tt, ground arith))
Chain-extend next t p x (y ∷ xs) ne f c =
    let apart = last_of-ne x y xs c.2 in
    (
      c.0,
      c.1,
      All-append (λ z. x ≢ z) (y ∷ xs) (t ∷ []) (c.2, ((λ e. f.0 (sym e)), tt)),
      rw (==_ne x (last_of (y ∷ xs)) apart, ==_ne x t (λ e. f.0 (sym e)))
          (Chain-extend next t (next x) y xs ne f.1 c.3),
    )

add-cons :
    (t : ℕ) (q : Queue) (next : Links)
    → q.first ≢ 0
    → add t q next ≡ (record q { last = t }, update (update next t 0) q.last t)
unfolding add
add-cons t q next h = rw (==_ne q.first 0 h)

-- An element that is not null and not in the queue goes in at the back: the queue then holds the old
-- elements in their order and the new one behind them, whether it was empty or not.
pub add-Holds :
    (t : ℕ) (q : Queue) (next : Links) (xs : List ℕ)
    → t ≢ 0
    → IsFresh t xs
    → Holds q next xs
    → Holds (add t q next).0 (add t q next).1 (xs ++ t ∷ [])
unfolding add
add-Holds t q next [] ne f h = ground arith
add-Holds t q next (x ∷ xs) ne f h =
    rw (add-cons t q next (λ e. h.chain.1 (sym h.chain.0 ∙ e))) (record {
      chain =
          subst (λ l. Chain (update (update next t 0) l t) q.first ((x ∷ xs) ++ t ∷ [])) (sym h.end)
            (Chain-extend next t q.first x xs ne f h.chain);
      end = sym (last_of-append t x xs);
    })

-- What `remove` does.
abbrev pub Removed : Queue → Links → List ℕ → ℕ × Queue → Type 0
Removed q next [] result = result ≡ (0, q)
Removed q next (x ∷ xs) result = (result.0 ≡ x) × Holds result.1 next xs

-- `remove` takes out the oldest element and leaves the others in their order; on an empty queue it
-- answers null and changes nothing.
pub remove_lem :
    (q : Queue) (next : Links) (xs : List ℕ) → Holds q next xs → Removed q next xs (remove q next)
unfolding remove
remove_lem q next [] h = ground arith
remove_lem q next (x ∷ []) h = ground arith
remove_lem q next (x ∷ y ∷ xs) h = ground arith

-- `remove_all` hands over the whole chain by its first element, and leaves an empty queue.
pub remove_all_lem :
    (q : Queue) (next : Links) (xs : List ℕ)
    → Holds q next xs
    → Chain next (remove_all q).0 xs × Holds (remove_all q).1 next []
unfolding remove_all
remove_all_lem q next xs h = (h.chain, record { chain = refl; end = refl })
