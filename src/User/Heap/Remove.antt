-- ===== src/User/Heap/Remove.antt =====
-- `remove` takes a node out of the list of free blocks.
use os_shell.Common.{
  ℕ, ◌+◌, ◌≡◌, refl, ◌≢◌, false, List, [], ◌∷◌, ◌++◌, All, arith, ◌∙◌, sym, subst, ==_ne,
}
use os_shell.Common.Int.{pos}
use os_shell.User.Heap.{Array, Heap, next, prev, remove}
use os_shell.User.Heap.Links.{
  head_or, last_or, Seg, AreApart, AreSpaced, is_link, Seg-put, Seg-split, Seg-join, Seg-prev,
  Seg-next, link_apart, AreSpaced-split, AreApart-split, put_ne,
}

-- The nodes of a heap's list, in order.
abbrev pub Lists : Heap → List ℕ → Type 0
Lists h xs = Seg h.array 0 xs 0 × (h.avail ≡ head_or 0 xs)

abbrev pub AreNodes : List ℕ → Type 0
AreNodes = All (λ x. x ≢ 0)

-- The heap lists `ys` after a change of links of `xs` only.
abbrev pub Relinked : Heap → List ℕ → List ℕ → Heap → Type 0
Relinked h xs ys h' = Lists h' ys × ((c : ℕ) → is_link c xs ≡ false → h'.array c ≡ h.array c)

last_nonzero : (u : ℕ) (us : List ℕ) → AreNodes (u ∷ us) → last_or u us ≢ 0
last_nonzero u [] h = h.0
last_nonzero u (v ∷ us) h = last_nonzero v us h.1

link_last :
    (u : ℕ) (us ws : List ℕ) (c : ℕ) → is_link c ((u ∷ us) ++ ws) ≡ false → c ≢ last_or u us + 1
link_last u [] ws c h = λ e. ground (arith, h)
link_last u (v ∷ us) ws c h = link_last v us ws c (ground (arith, h))

link_append : (us ws : List ℕ) (c : ℕ) → is_link c (us ++ ws) ≡ false → is_link c ws ≡ false
link_append [] ws c h = h
link_append (u ∷ us) ws c h = link_append us ws c (ground (arith, h))

link_second : (p v : ℕ) (vs : List ℕ) (c : ℕ) → is_link c (p ∷ v ∷ vs) ≡ false → c ≢ v + 2
link_second p v vs c h = λ e. ground (arith, h)

last_apart :
    (u x : ℕ) (us ws : List ℕ) → AreSpaced ((u ∷ us) ++ x ∷ ws) → AreApart (last_or u us) (x ∷ ws)
last_apart u x [] ws h = h.0
last_apart u x (v ∷ us) ws h = last_apart v x us ws h.1

nodes_before : (us vs : List ℕ) → AreNodes (us ++ vs) → AreNodes us × AreNodes vs
nodes_before [] vs h = (tt, h)
nodes_before (u ∷ us) vs h = let (l, r) = nodes_before us vs h.1 in ((h.0, l), r)

-- The links of a node behind are not those of the nodes before.
unlinked :
    (u : ℕ) (us : List ℕ) (p v : ℕ) (vs : List ℕ)
    → AreSpaced ((u ∷ us) ++ p ∷ v ∷ vs)
    → is_link (v + 2) (u ∷ us) ≡ false
unlinked u [] p v vs sp = ground (arith, sp.0.1.0)
unlinked u (w ∷ us) p v vs sp =
    ground (arith, (AreApart-split u (w ∷ us) (p ∷ v ∷ vs) sp.0).1.1.0, unlinked w us p v vs sp.1)

module _ (h : Heap) (p : ℕ) where
  abbrev HasLinks : ℕ → ℕ → Type 0
  HasLinks before after = (h.array (p + 2) ≡ pos before) × (h.array (p + 1) ≡ pos after)

  -- The four ways through the tests.
  remove_alone : HasLinks 0 0 → remove p h ≡ record h { avail = 0 }
  unfolding remove
  remove_alone l = rw (l.0, l.1) refl

  remove_first :
      (v : ℕ) → v ≢ 0 → HasLinks 0 v → remove p h ≡ record { avail = v; array = prev v 0 h.array }
  unfolding remove
  remove_first v nz l = rw (l.0, l.1, ==_ne v 0 nz) refl

  remove_last : (u : ℕ) → u ≢ 0 → HasLinks u 0 → remove p h ≡ record h { array = next u 0 h.array }
  unfolding remove
  remove_last u nz l = rw (l.0, l.1, ==_ne u 0 nz) refl

  remove_middle :
      (u v : ℕ)
      → u ≢ 0
      → v ≢ 0
      → HasLinks u v
      → remove p h ≡ record h { array = prev v u (next u v h.array) }
  unfolding remove
  remove_middle u v nu nv l = rw (l.0, l.1, ==_ne u 0 nu, ==_ne v 0 nv) refl

  alone : Lists h (p ∷ []) → Relinked h (p ∷ []) [] (remove p h)
  alone l =
      subst (Relinked h (p ∷ []) []) (sym (remove_alone (l.0.0, l.0.1))) ((tt, refl), λ c e. refl)

  first :
      (v : ℕ) (vs : List ℕ)
      → AreSpaced (p ∷ v ∷ vs)
      → v ≢ 0
      → Lists h (p ∷ v ∷ vs)
      → Relinked h (p ∷ v ∷ vs) (v ∷ vs) (remove p h)
  first v vs sp nz l =
      subst (Relinked h (p ∷ v ∷ vs) (v ∷ vs)) (sym (remove_first v nz (l.0.0, l.0.1))) (
        (Seg-prev h.array p 0 0 v vs sp.1 l.0.2, refl),
        λ c e. put_ne h.array c (v + 2) (pos 0) (link_second p v vs c e),
      )

  last :
      (u : ℕ) (us : List ℕ)
      → AreSpaced ((u ∷ us) ++ p ∷ [])
      → AreNodes (u ∷ us)
      → Lists h ((u ∷ us) ++ p ∷ [])
      → Relinked h ((u ∷ us) ++ p ∷ []) ((u ∷ us) ++ []) (remove p h)
  last u us sp nz l =
      let (left, at) = Seg-split h.array 0 0 (u ∷ us) (p ∷ []) l.0 in
      let spaced = (AreSpaced-split (u ∷ us) (p ∷ []) sp).0 in
      let a' : Array = next (last_or u us) 0 h.array in
      subst (Relinked h ((u ∷ us) ++ p ∷ []) ((u ∷ us) ++ []))
        (sym (remove_last (last_or u us) (last_nonzero u us nz) (at.0, at.1)))
        (
          (Seg-join a' 0 0 (u ∷ us) [] (Seg-next h.array 0 p 0 u us spaced left) tt, l.1),
          λ c e. put_ne h.array c (last_or u us + 1) (pos 0) (link_last u us (p ∷ []) c e),
        )

  middle :
      (u : ℕ) (us : List ℕ) (v : ℕ) (vs : List ℕ)
      → AreSpaced ((u ∷ us) ++ p ∷ v ∷ vs)
      → AreNodes (u ∷ us)
      → v ≢ 0
      → Lists h ((u ∷ us) ++ p ∷ v ∷ vs)
      → Relinked h ((u ∷ us) ++ p ∷ v ∷ vs) ((u ∷ us) ++ v ∷ vs) (remove p h)
  middle u us v vs sp nz nv l =
      let (left, at) = Seg-split h.array 0 0 (u ∷ us) (p ∷ v ∷ vs) l.0 in
      let (spaced, behind) = AreSpaced-split (u ∷ us) (p ∷ v ∷ vs) sp in
      let w = last_or u us in
      let a1 : Array = next w v h.array in
      let a2 : Array = prev v w a1 in
      let far : AreApart w (v ∷ vs) = (last_apart u p us (v ∷ vs) sp).1 in
      let right1 : Seg a1 p (v ∷ vs) 0 =
        Seg-put h.array (w + 1) p 0 (pos v) (v ∷ vs)
          (link_apart (w + 1) w (v ∷ vs) far (omega arith) (omega arith)) at.2 in
      let left1 : Seg a1 0 (u ∷ us) v = Seg-next h.array 0 p v u us spaced left in
      let left2 : Seg a2 0 (u ∷ us) v =
        Seg-put a1 (v + 2) 0 v (pos w) (u ∷ us) (unlinked u us p v vs sp) left1 in
      subst (Relinked h ((u ∷ us) ++ p ∷ v ∷ vs) ((u ∷ us) ++ v ∷ vs))
        (sym (remove_middle w v (last_nonzero u us nz) nv (at.0, at.1)))
        (
          (Seg-join a2 0 0 (u ∷ us) (v ∷ vs) left2 (Seg-prev a1 p 0 w v vs behind.1 right1), l.1),
          λ c e.
              put_ne a1 c (v + 2) (pos w)
                (link_second p v vs c (link_append (u ∷ us) (p ∷ v ∷ vs) c e))
              ∙ put_ne h.array c (w + 1) (pos v) (link_last u us (p ∷ v ∷ vs) c e),
        )

-- From a spaced list of nodes, `remove` takes out just the node that it is given, and it changes
-- nothing but links of the list.
pub remove_lem :
    (h : Heap) (us : List ℕ) (p : ℕ) (vs : List ℕ)
    → AreSpaced (us ++ p ∷ vs)
    → AreNodes (us ++ p ∷ vs)
    → Lists h (us ++ p ∷ vs)
    → Relinked h (us ++ p ∷ vs) (us ++ vs) (remove p h)
remove_lem h [] p [] sp nz l = alone h p l
remove_lem h [] p (v ∷ vs) sp nz l = first h p v vs sp nz.1.0 l
remove_lem h (u ∷ us) p [] sp nz l = last h p u us sp (nodes_before (u ∷ us) (p ∷ []) nz).0 l
remove_lem h (u ∷ us) p (v ∷ vs) sp nz l =
    let (before, behind) = nodes_before (u ∷ us) (p ∷ v ∷ vs) nz in
    middle h p u us v vs sp before behind.1.0 l
