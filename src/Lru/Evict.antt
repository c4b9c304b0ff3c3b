-- ===== src/Lru/Evict.antt =====
-- `evictLocked` on an entry of the cache: it and nothing else leaves.
use mathlib.Core.List.{append-nil}
use swim.Prelude.{
  ◌+◌, ◌≡◌, ◌≢◌, refl, ◌∙◌, ap, sym, ◌||◌, true, false, Option, none, some, List, [], ◌∷◌, ◌++◌,
  arith, Text, text_eq, has, nat_eq, ◌==◌, length-append,
}
use swim.Prelude.Dict.{lookup, erase, lookup-erase, erase-NodupKeys, length-erase}
use swim.Lru.{Item, Ptr, LruCacheFs, unlink, if_live, evict_locked}
use swim.Lru.Chain.{
  first, last, Distinct, Nodes-split, Distinct-split, Distinct-join, has-append, last-append,
}
use swim.Lru.Repr.{
  items, total, Repr, items-SameItems, items-append, total-append, unlink-SameItems, unlink-Nodes,
}

pub if_live-last : (x : Ptr) (xs : List Ptr) (u v : Option Ptr) → if_live (last (some x) xs) u v ≡ u
if_live-last x [] u v = refl
if_live-last x (y ∷ xs) u v = if_live-last y xs u v

pub head-unlink :
    (xs : List Ptr) (p : Ptr) (ys : List Ptr)
    → if_live (last none xs) (first (xs ++ p ∷ ys) none) (first ys none) ≡ first (xs ++ ys) none
head-unlink [] p ys = refl
head-unlink (x ∷ xs) p ys = if_live-last x xs _ _

pub tail-unlink :
    (xs : List Ptr) (p : Ptr) (ys : List Ptr)
    → if_live (first ys none) (last none (xs ++ p ∷ ys)) (last none xs) ≡ last none (xs ++ ys)
tail-unlink xs p [] = rw append-nil
tail-unlink xs p (y ∷ ys) = rw (last-append, last-append)

pub has-unlink :
    (xs : List Ptr) (p : Ptr) (ys : List Ptr) (q : Ptr)
    → has q (xs ++ p ∷ ys) ≡ ((q == p) || has q (xs ++ ys))
has-unlink [] p ys q = refl
has-unlink (x ∷ xs) p ys q = ground (arith, has-unlink xs p ys q)

module _ (c : LruCacheFs) (xs : List Ptr) (p : Ptr) (ys : List Ptr)
    (r : Repr c (xs ++ p ∷ ys)) where
  here : has p (xs ++ p ∷ ys) ≡ true
  here = ground (arith, has-unlink xs p ys p)

  pub unlink-Distinct : Distinct (xs ++ ys) × (has p (xs ++ ys) ≡ false)
  unlink-Distinct =
      let (dx, (out, dy), apart) = Distinct-split xs (p ∷ ys) r.distinct in
      (
        Distinct-join xs ys dx dy (λ q m. ground (arith, apart q)),
        ground (arith, has-append p xs ys, apart p),
      )

  pub prev-last : (c.heap p).prev ≡ last none xs
  prev-last = (Nodes-split c.heap none xs (p ∷ ys) none r.nodes).1.0

  pub next-first : (c.heap p).next ≡ first ys none
  next-first = (Nodes-split c.heap none xs (p ∷ ys) none r.nodes).1.1

  name-unlink : (q : Ptr) → (unlink c.heap p q).name ≡ (c.heap q).name
  name-unlink q = ap (λ (i : Item). i.name) (unlink-SameItems c.heap p q)

  size-unlink : (q : Ptr) → (unlink c.heap p q).size ≡ (c.heap q).size
  size-unlink q = ap (λ (i : Item). i.size) (unlink-SameItems c.heap p q)

  -- Entries that are not the evicted one have other names.
  pub name-ne : (q : Ptr) → has q (xs ++ ys) ≡ true → (c.heap q).name ≢ (c.heap p).name
  name-ne q m e =
      let at_p = r.complete p here in
      let at_q = r.complete q (ground (arith, has-unlink xs p ys q)) in
      let same : some q ≡ some p = sym at_q ∙ ap (λ n. lookup n c.entries) e ∙ at_p in
      ground (arith, unlink-Distinct.1)

  lookup-kept :
      (n : Text) (q : Ptr)
      → lookup n (erase (c.heap p).name c.entries) ≡ some q
      → (n ≢ (c.heap p).name) × (lookup n c.entries ≡ some q)
  lookup-kept n q h = ground (arith, lookup-erase n (c.heap p).name c.entries r.keys)

  sound-evict :
      (n : Text) (q : Ptr)
      → lookup n (evict_locked c p).entries ≡ some q
      → (has q (xs ++ ys) ≡ true) × (((evict_locked c p).heap q).name ≡ n)
  unfolding evict_locked
  sound-evict n q h =
      let (other, kept) = lookup-kept n q (rw (name-unlink p) at h) in
      let (m, e) = r.sound n q kept in
      let apart : q ≢ p = λ same. other (sym e ∙ ap (λ z. (c.heap z).name) same) in
      (ground (arith, has-unlink xs p ys q), name-unlink q ∙ e)

  complete-evict :
      (q : Ptr)
      → has q (xs ++ ys) ≡ true
      → lookup ((evict_locked c p).heap q).name (evict_locked c p).entries ≡ some q
  unfolding evict_locked
  complete-evict q m =
      rw (name-unlink p, name-unlink q, lookup-erase _ _ c.entries r.keys)
        (ground (arith, name-ne q m, r.complete q, has-unlink xs p ys q))

  pub items-evict : items (evict_locked c p).heap (xs ++ ys) ≡ items c.heap xs ++ items c.heap ys
  unfolding evict_locked
  items-evict =
      items-SameItems (unlink c.heap p) c.heap (xs ++ ys) (unlink-SameItems c.heap p)
      ∙ items-append c.heap xs ys

  pub total-evict :
      total (items c.heap (xs ++ p ∷ ys))
      ≡ (c.heap p).size + total (items c.heap xs ++ items c.heap ys)
  total-evict = rw items-append (
      omega (
        arith,
        total-append (items c.heap xs) (items c.heap (p ∷ ys)),
        total-append (items c.heap xs) (items c.heap ys),
      ))

  -- Without an evicted entry, the others are still linked in order, indexed and counted.
  pub evict-Repr : Repr (evict_locked c p) (xs ++ ys)
  unfolding evict_locked
  evict-Repr = record {
    head = rw (prev-last, next-first, r.head) (head-unlink xs p ys);
    tail = rw (prev-last, next-first, r.tail) (tail-unlink xs p ys);
    nodes = unlink-Nodes c.heap xs p ys r.distinct r.nodes;
    distinct = unlink-Distinct.0;
    sound = sound-evict;
    complete = complete-evict;
    keys = erase-NodupKeys _ c.entries r.keys;
    counted = rw (name-unlink p) (
        omega (
          arith,
          length-erase (c.heap p).name p c.entries (r.complete p here),
          r.counted,
          length-append xs (p ∷ ys),
          length-append xs ys,
        ));
    bytes = rw (items-evict, size-unlink) (omega (arith, total-evict, r.bytes));
    within = omega (arith, r.within);
    allocated = λ q m. r.allocated q (ground (arith, has-unlink xs p ys q));
  }
