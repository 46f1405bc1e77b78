-- ===== src/User/Heap/Kept.antt =====
-- What taken blocks hold is not touched by the operations next to them.
use os_shell.Common.{
  ℕ, ◌+◌, ◌-◌, ◌<◌, ◌≤◌, ◌≡◌, true, ◌⊎◌, inl, inr, List, [], ◌∷◌, ◌++◌, arith, ◌∙◌, sym, subst,
  Bool-cases, ◌==◌, if◌then◌else◌,
}
use os_shell.Common.Int.{ℤ, pos, neg_of}
use os_shell.User.Heap.{Array, Heap, put, remove, make_taken, make_avail, prev}
use os_shell.User.Heap.Cells.{Block, is_tag, mem, tag_above, tag_below, tag_behind}
use os_shell.User.Heap.Links.{is_link, put_ne, head_or}
use os_shell.User.Heap.State.{IsOpen, pre_tag_off, post_tag_off}
use os_shell.User.Heap.Open.{remove-keeps}
use os_shell.User.Heap.Fill.{set_tags-put, abs-neg_of, make_avail-eq}

-- The taken blocks of both runs hold what they held.
abbrev pub KeptRun : Array → Array → ℕ → List Block → Type 0
KeptRun a a' i bs = (c : ℕ) → is_tag c i bs ≡ true → a' c ≡ a c

abbrev pub Kept : Array → Array → List Block → ℕ → List Block → Type 0
Kept a a' pre hi post = KeptRun a a' 2 pre × KeptRun a a' hi post

pub Kept-trans :
    (a b c : Array) (pre : List Block) (hi : ℕ) (post : List Block)
    → Kept a b pre hi post
    → Kept b c pre hi post
    → Kept a c pre hi post
Kept-trans a b c pre hi post k l = ((λ d t. l.0 d t ∙ k.0 d t), λ d t. l.1 d t ∙ k.1 d t)

module _ (h : Heap) (pre : List Block) (lo hi : ℕ) (post : List Block) (xs : List ℕ)
    (o : IsOpen h pre lo hi post xs) where
  pub remove-Kept : (p : ℕ) → mem p xs ≡ true → Kept h.array (remove p h).array pre hi post
  remove-Kept p m =
      let keeps = remove-keeps h pre lo hi post xs o p m in
      (
        (λ c t. keeps c (pre_tag_off h pre lo hi post xs o c t)),
        (λ c t. keeps c (post_tag_off h pre lo hi post xs o c t)),
      )

  -- The cells of the gap and the links.
  abbrev IsOff : ℕ → Type 0
  IsOff c = ((lo ≤ c) × (c < hi)) ⊎ (is_link c xs ≡ true)

  put-Kept : (a : Array) (c : ℕ) (v : ℤ) → IsOff c → Kept a (put c v a) pre hi post
  put-Kept a c v (inl (above, below)) =
      let no_pre = tag_above c 2 pre o.pre_big (omega (arith, o.pre_ends)) in
      let no_post = tag_below c hi post o.post_big below in
      (
        (λ d t. put_ne a d c v (λ e. ground (arith, t, no_pre))),
        (λ d t. put_ne a d c v (λ e. ground (arith, t, no_post))),
      )
  put-Kept a c v (inr link) = (
    (λ d t. put_ne a d c v (λ e. ground (arith, link, pre_tag_off h pre lo hi post xs o d t))),
    (λ d t. put_ne a d c v (λ e. ground (arith, link, post_tag_off h pre lo hi post xs o d t))),
  )

  set_tags-Kept :
      (a : Array) (n : ℕ) (v : ℤ)
      → 0 < n
      → lo + n ≤ hi
      → Kept a (put (lo + n - 1) v (put lo v a)) pre hi post
  set_tags-Kept a n v some_n fits =
      Kept-trans a (put lo v a) (put (lo + n - 1) v (put lo v a)) pre hi post
        (put-Kept a lo v (inl (omega arith, omega arith)))
        (put-Kept (put lo v a) (lo + n - 1) v (inl (omega arith, omega arith)))

  pub make_taken-Kept :
      (n : ℕ) → 0 < n → lo + n ≤ hi → Kept h.array (make_taken lo n h).array pre hi post
  unfolding make_taken
  make_taken-Kept n some_n fits =
      subst (λ a. Kept h.array a pre hi post)
        (sym (set_tags-put lo n (neg_of n) h.array (abs-neg_of n)))
        (set_tags-Kept h.array n (neg_of n) some_n fits)

-- A run of blocks keeps what its parts keep, and a part what the run keeps.
tag_front : (c i : ℕ) (xs ys : List Block) → is_tag c i xs ≡ true → is_tag c i (xs ++ ys) ≡ true
tag_front c i [] ys t = absurd (ground arith)
tag_front c i (x ∷ xs) ys t = elim (Bool-cases (is_tag c (i + x.ints) xs)) [
  | inl e ↦ tag_behind c i x (xs ++ ys) (tag_front c (i + x.ints) xs ys e)
  | inr e ↦ ground arith
]

pub KeptRun-front :
    (a a' : Array) (i : ℕ) (xs ys : List Block) → KeptRun a a' i (xs ++ ys) → KeptRun a a' i xs
KeptRun-front a a' i xs ys k c t = k c (tag_front c i xs ys t)

pub KeptRun-behind :
    (a a' : Array) (i : ℕ) (b : Block) (bs : List Block)
    → KeptRun a a' i (b ∷ bs)
    → KeptRun a a' (i + b.ints) bs
KeptRun-behind a a' i b bs k c t = k c (tag_behind c i b bs t)

pub make_avail-Kept :
    (h : Heap) (pre : List Block) (lo n : ℕ) (post : List Block) (xs : List ℕ)
    → 4 ≤ n
    → IsOpen h pre lo (lo + n) post xs
    → Kept h.array (make_avail lo n h).array pre (lo + n) post
make_avail-Kept h pre lo n post xs big o =
    let a1 : Array = put (lo + n - 1) (pos n) (put lo (pos n) h.array) in
    let a2 : Array = put (lo + 1) (pos h.avail) a1 in
    let a3 : Array = put (lo + 2) (pos 0) a2 in
    let k1 =
      set_tags-Kept h pre lo (lo + n) post xs o h.array n (pos n) (omega arith) (omega arith) in
    let k2 =
      put-Kept h pre lo (lo + n) post xs o a1 (lo + 1) (pos h.avail)
        (inl (omega arith, omega arith)) in
    let k3 =
      put-Kept h pre lo (lo + n) post xs o a2 (lo + 2) (pos 0) (inl (omega arith, omega arith)) in
    let k =
      Kept-trans h.array a2 a3 pre (lo + n) post (Kept-trans h.array a1 a2 pre (lo + n) post k1 k2)
        k3 in
    subst (λ t. Kept h.array t.array pre (lo + n) post) (sym (make_avail-eq h pre lo n post big))
      (told h pre lo n post xs o a3 k (o.lists.1))
  where
    second_link : (x : ℕ) (xs : List ℕ) → is_link (x + 2) (x ∷ xs) ≡ true
    second_link x xs = ground arith

    told :
        (h : Heap) (pre : List Block) (lo n : ℕ) (post : List Block) (xs : List ℕ)
        → IsOpen h pre lo (lo + n) post xs
        → (a : Array) → Kept h.array a pre (lo + n) post
        → h.avail ≡ head_or 0 xs
        → Kept h.array (if h.avail == 0 then a else prev h.avail lo a) pre (lo + n) post
    told h pre lo n post [] o a k e =
        subst (λ p. Kept h.array (if p == 0 then a else prev p lo a) pre (lo + n) post) (sym e) k
    told h pre lo n post (x ∷ xs) o a k e =
        let more =
          put-Kept h pre lo (lo + n) post (x ∷ xs) o a (x + 2) (pos lo) (inr (second_link x xs)) in
        let both = Kept-trans h.array a (prev x lo a) pre (lo + n) post k more in
        subst (λ p. Kept h.array (if p == 0 then a else prev p lo a) pre (lo + n) post) (sym e)
          (elim (Bool-cases (x == 0)) [ inl z ↦ rw z k | inr z ↦ rw z both ])
