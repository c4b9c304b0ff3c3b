-- ===== src/Lru/Chain.antt =====
-- The doubly linked chain of a cache: which heaps hold it, and what relinking does to it.
use swim.Prelude.{
  ◌≡◌, refl, true, false, ◌||◌, Option, none, some, List, [], ◌∷◌, ◌++◌, arith, has, nat_eq,
}
use swim.Lru.{Ptr, Heap, relink_next, relink_prev, set_next, set_prev}

-- The first and the last pointer of a chain, with what stands there if it is empty.
abbrev pub first : List Ptr → Option Ptr → Option Ptr
first [] a = a
first (p ∷ ps) a = some p

abbrev pub last : Option Ptr → List Ptr → Option Ptr
last b [] = b
last b (p ∷ ps) = last (some p) ps

-- Each node points back at the one before it, the first at `b`, and on at the next, the last
-- at `a`.
abbrev pub Nodes : Heap → Option Ptr → List Ptr → Option Ptr → Type 0
Nodes h b [] a = Unit
Nodes h b (p ∷ ps) a = ((h p).prev ≡ b) × ((h p).next ≡ first ps a) × Nodes h (some p) ps a

abbrev pub Distinct : List Ptr → Type 0
Distinct [] = Unit
Distinct (p ∷ ps) = (has p ps ≡ false) × Distinct ps

-- `o` is nil or a node outside of the chain.
abbrev pub Outside : Option Ptr → List Ptr → Type 0
Outside none ps = Unit
Outside (some p) ps = has p ps ≡ false

pub last-append : (b : Option Ptr) (xs ys : List Ptr) → last b (xs ++ ys) ≡ last (last b xs) ys
last-append b [] ys = refl
last-append b (x ∷ xs) ys = last-append (some x) xs ys

pub first-append : (xs ys : List Ptr) (a : Option Ptr) → first (xs ++ ys) a ≡ first xs (first ys a)
first-append [] ys a = refl
first-append (x ∷ xs) ys a = refl

module _ (h : Heap) where
  pub Nodes-split :
      (b : Option Ptr) (xs ys : List Ptr) (a : Option Ptr)
      → Nodes h b (xs ++ ys) a
      → Nodes h b xs (first ys a) × Nodes h (last b xs) ys a
  Nodes-split b [] ys a n = (tt, n)
  Nodes-split b (x ∷ xs) ys a (p, q, n) =
      let (l, r) = Nodes-split (some x) xs ys a n in ((p, rw (← first-append xs ys a) q, l), r)

  pub Nodes-join :
      (b : Option Ptr) (xs ys : List Ptr) (a : Option Ptr)
      → Nodes h b xs (first ys a)
      → Nodes h (last b xs) ys a
      → Nodes h b (xs ++ ys) a
  Nodes-join b [] ys a n m = m
  Nodes-join b (x ∷ xs) ys a (p, q, n) m =
      (p, rw (first-append xs ys a) q, Nodes-join (some x) xs ys a n m)

  pub Nodes-relink_next_out :
      (o v b : Option Ptr) (ps : List Ptr) (a : Option Ptr)
      → Outside o ps
      → Nodes h b ps a
      → Nodes (relink_next o v h) b ps a
  unfolding relink_next set_next
  Nodes-relink_next_out none v b ps a out n = n
  Nodes-relink_next_out (some z) v b [] a out n = tt
  Nodes-relink_next_out (some z) v b (p ∷ ps) a out (e, f, n) =
      (ground arith, ground arith, Nodes-relink_next_out (some z) v (some p) ps a (ground arith) n)

  pub Nodes-relink_prev_out :
      (o v b : Option Ptr) (ps : List Ptr) (a : Option Ptr)
      → Outside o ps
      → Nodes h b ps a
      → Nodes (relink_prev o v h) b ps a
  unfolding relink_prev set_prev
  Nodes-relink_prev_out none v b ps a out n = n
  Nodes-relink_prev_out (some z) v b [] a out n = tt
  Nodes-relink_prev_out (some z) v b (p ∷ ps) a out (e, f, n) =
      (ground arith, ground arith, Nodes-relink_prev_out (some z) v (some p) ps a (ground arith) n)

pub last-Outside :
    (ps : List Ptr) (b : Option Ptr) (zs : List Ptr)
    → Outside b zs
    → ((q : Ptr) → has q ps ≡ true → has q zs ≡ false)
    → Outside (last b ps) zs
last-Outside [] b zs out apart = out
last-Outside (q ∷ ps) b zs out apart =
    last-Outside ps (some q) zs (apart q (ground arith)) (λ r m. apart r (ground arith))

pub first-Outside :
    (ps zs : List Ptr)
    → ((q : Ptr) → has q ps ≡ true → has q zs ≡ false)
    → Outside (first ps none) zs
first-Outside [] zs apart = tt
first-Outside (q ∷ ps) zs apart = apart q (ground arith)

pub has-append : (q : Ptr) (xs ys : List Ptr) → has q (xs ++ ys) ≡ (has q xs || has q ys)
has-append q [] ys = refl
has-append q (x ∷ xs) ys = ground (arith, has-append q xs ys)

pub Distinct-split :
    (xs ys : List Ptr)
    → Distinct (xs ++ ys)
    → Distinct xs × Distinct ys × ((q : Ptr) → has q xs ≡ true → has q ys ≡ false)
Distinct-split [] ys d = (tt, d, λ q m. cc)
Distinct-split (x ∷ xs) ys (out, d) =
    let (dx, dy, apart) = Distinct-split xs ys d in
    (
      (ground (arith, has-append x xs ys), dx),
      dy,
      λ q m. ground (arith, apart q, has-append x xs ys),
    )

pub Distinct-join :
    (xs ys : List Ptr)
    → Distinct xs
    → Distinct ys
    → ((q : Ptr) → has q xs ≡ true → has q ys ≡ false)
    → Distinct (xs ++ ys)
Distinct-join [] ys dx dy apart = dy
Distinct-join (x ∷ xs) ys (out, dx) dy apart = (
  ground (arith, has-append x xs ys, apart x),
  Distinct-join xs ys dx dy (λ q m. apart q (ground arith)),
)

module _ (h : Heap) where
  pub relink_next_away :
      (o v : Option Ptr) (p : Ptr) → Outside o (p ∷ []) → relink_next o v h p ≡ h p
  unfolding relink_next set_next
  relink_next_away none v p out = refl
  relink_next_away (some z) v p out = ground arith

  pub relink_prev_away :
      (o v : Option Ptr) (p : Ptr) → Outside o (p ∷ []) → relink_prev o v h p ≡ h p
  unfolding relink_prev set_prev
  relink_prev_away none v p out = refl
  relink_prev_away (some z) v p out = ground arith

  -- To redirect the last node's `next`, and the first node's `prev`.
  Nodes-relink_last :
      (p : Ptr) (ps : List Ptr) (b a v : Option Ptr)
      → Distinct (p ∷ ps)
      → Nodes h b (p ∷ ps) a
      → Nodes (relink_next (last (some p) ps) v h) b (p ∷ ps) v
  unfolding relink_next set_next
  Nodes-relink_last p [] b a v d (e, f, n) = (ground arith, ground arith, tt)
  Nodes-relink_last p (q ∷ r) b a v (out, d) (e, f, n) =
      let away =
        relink_next_away (last (some q) r) v p
          (last-Outside r (some q) (p ∷ []) (ground arith) (λ z m. ground arith)) in
      (rw away e, rw away f, Nodes-relink_last q r (some p) a v d n)

  pub Nodes-relink_next :
      (xs : List Ptr) (a v : Option Ptr)
      → Distinct xs
      → Nodes h none xs a
      → Nodes (relink_next (last none xs) v h) none xs v
  Nodes-relink_next [] a v d n = tt
  Nodes-relink_next (x ∷ xs) a v d n = Nodes-relink_last x xs none a v d n

  pub Nodes-relink_prev :
      (ys : List Ptr) (b v a : Option Ptr)
      → Distinct ys
      → Nodes h b ys a
      → Nodes (relink_prev (first ys none) v h) v ys a
  unfolding relink_prev set_prev
  Nodes-relink_prev [] b v a d n = tt
  Nodes-relink_prev (p ∷ ps) b v a (out, d) (e, f, n) =
      (ground arith, ground arith, Nodes-relink_prev_out h (some p) v (some p) ps a out n)

-- Unlinking a node leaves the chain of the others.
pub Nodes-unlink :
    (h : Heap) (xs : List Ptr) (p : Ptr) (ys : List Ptr)
    → Distinct (xs ++ p ∷ ys)
    → Nodes h none (xs ++ p ∷ ys) none
    → let b = last none xs in
      let a = first ys none in
      ((h p).prev ≡ b)
      × ((h p).next ≡ a)
      × (relink_next b a h p ≡ h p)
      × Nodes (relink_prev a b (relink_next b a h)) none (xs ++ ys) none
Nodes-unlink h xs p ys d n =
    let (dx, (out, dy), apart) = Distinct-split xs (p ∷ ys) d in
    let (nx, (e, f, ny)) = Nodes-split h none xs (p ∷ ys) none n in
    let b = last none xs in
    let a = first ys none in
    let h' = relink_next b a h in
    let front = Nodes-relink_next h xs (some p) a dx nx in
    let back =
      Nodes-relink_next_out h b a (some p) ys none
        (last-Outside xs none ys tt (λ q m. ground (arith, apart q))) ny in
    (
      e,
      f,
      relink_next_away h b a p (last-Outside xs none (p ∷ []) tt (λ q m. ground (arith, apart q))),
      Nodes-join (relink_prev a b h') none xs ys none
          (Nodes-relink_prev_out h' a b none xs a
            (first-Outside ys xs (λ q m. ground (arith, apart q))) front)
          (Nodes-relink_prev h' ys (some p) b none dy back),
    )
