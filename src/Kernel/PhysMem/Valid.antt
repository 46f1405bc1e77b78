-- ===== src/Kernel/PhysMem/Valid.antt =====
-- What a valid memory of frames is.
use os_shell.Common.{
  ℕ, ◌+◌, ◌^◌, ◌<◌, ◌≤◌, ◌≡◌, ◌≢◌, Bool, true, false, Option, none, some, List, [], ◌∷◌, All, arith,
  ◌==◌, if◌then◌else◌, ◌⊎◌,
}
use os_shell.Kernel.Queue.Fifo.{Chain}
use os_shell.Kernel.PhysMem.{Memory, frame_size, offset, in_frame}

-- A frame of the memory that has been handed out so far.
abbrev pub IsFrame : ℕ → Memory → ℕ → Type 0
IsFrame start m x = (offset x ≡ 0) × (start ≤ x) × (x + frame_size ≤ m.avail)

abbrev pub AreFree : ℕ → (ℕ → Bool) → Memory → List ℕ → Type 0
AreFree start owned m = All (λ x. IsFrame start m x × (owned x ≡ false))

-- The frames from `start` on: those that somebody owns, those that are free, and the untouched rest.
pub record IsValid (start : ℕ) (owned : ℕ → Bool) (m : Memory) (free : List ℕ) : Type 0 where
  pub chain : Chain m.words m.first_free free
  pub free_frames : AreFree start owned m free
  pub owned_frames : (a : ℕ) → owned a ≡ true → IsFrame start m a
  pub above_null : 0 < start
  pub start_in : start ≤ m.avail
  pub start_at : offset start ≡ 0
  pub avail_at : offset m.avail ≡ 0
  pub limit_at : offset m.limit ≡ 0
  pub avail_in : m.avail ≤ m.limit
  pub limit_in : m.limit < 2 ^ 32

-- A chain looks only at the words of its elements.
pub Chain-same :
    (f g : ℕ → ℕ) (p : ℕ) (xs : List ℕ) → All (λ x. g x ≡ f x) xs → Chain f p xs → Chain g p xs
Chain-same f g p [] same c = c
Chain-same f g p (x ∷ xs) same c = (c.0, c.1, c.2, rw (same.0) (Chain-same f g (f x) xs same.1 c.3))

-- Two frames do not overlap.
pub apart : (p x : ℕ) → offset p ≡ 0 → offset x ≡ 0 → p ≢ x → in_frame p x ≡ false
apart p x hp hx ne = ground arith

abbrev pub own : (ℕ → Bool) → ℕ → ℕ → Bool
own owned p a = if a == p then true else owned a

abbrev pub disown : (ℕ → Bool) → ℕ → ℕ → Bool
disown owned p a = if a == p then false else owned a

-- What `alloc_frame` does.
abbrev pub Allocated : ℕ → (ℕ → Bool) → Memory → List ℕ → Option (ℕ × Memory) → Type 0
Allocated start owned m free result =
    ((free ≡ []) × (m.avail ≡ m.limit) × (result ≡ none))
    ⊎ ((p : ℕ) × (m' : Memory) × (free' : List ℕ) × (result ≡ some (p, m'))
        × (owned p ≡ false)
        × ((a : ℕ) → m'.words a ≡ (if in_frame p a then 0 else m.words a))
        × IsValid start (own owned p) m' free')
