-- ===== src/Lru/Touch.antt =====
-- `touchLocked`: the entry moves to the front, and the others keep their order.
use swim.Prelude.{
  subst, ◌≡◌, refl, ◌∙◌, ap, sym, true, false, Option, none, some, List, [], ◌∷◌, ◌++◌, arith,
  text_eq, has, nat_eq, is, if◌then◌else◌, length-append,
}
use swim.Lru.{
  Item, item, CacheEntry, Ptr, Heap, LruCacheFs, relink_next, relink_prev, set_next, set_prev,
  unlink, link_front, move_to_front, touch_locked,
}
use swim.Lru.Chain.{
  first, last, Nodes, Distinct, Outside, Distinct-split, last-append, last-Outside, first-Outside,
  Nodes-unlink, Nodes-relink_prev, Nodes-relink_prev_out, Nodes-relink_next_out, relink_prev_away,
}
use swim.Lru.Repr.{
  items, total, Repr, SameItems, items-SameItems, items-append, unlink-SameItems, unlink-Nodes,
  relink_next-SameItems, relink_prev-SameItems,
}
use swim.Lru.Evict.{has-unlink, unlink-Distinct, prev-last, total-evict}

pub link_front-SameItems : (h : Heap) (p : Ptr) (o : Option Ptr) → SameItems (link_front h p o) h
unfolding link_front relink_next relink_prev
link_front-SameItems h p o q =
    relink_prev-SameItems o (some p) (set_next p o (set_prev p none h)) q
    ∙ relink_next-SameItems (some p) o (set_prev p none h) q
    ∙ relink_prev-SameItems (some p) none h q

own_links :
    (h : Heap) (p : Ptr) (o : Option Ptr)
    → ((set_next p o (set_prev p none h) p).prev ≡ none)
      × ((set_next p o (set_prev p none h) p).next ≡ o)
unfolding set_next set_prev
own_links h p o = ground arith

pub link_front-Nodes :
    (h : Heap) (p : Ptr) (zs : List Ptr)
    → has p zs ≡ false
    → Distinct zs
    → Nodes h none zs none
    → Nodes (link_front h p (first zs none)) none (p ∷ zs) none
unfolding link_front relink_next relink_prev
link_front-Nodes h p zs out d n =
    let o = first zs none in
    let h' = set_prev p none h in
    let h'' = set_next p o h' in
    let away =
      relink_prev_away h'' o (some p) p (first-Outside zs (p ∷ []) (λ q m. ground arith)) in
    (
      rw away (own_links h p o).0,
      rw away (own_links h p o).1,
      Nodes-relink_prev h'' zs none (some p) none d (
          Nodes-relink_next_out h' (some p) o none zs none out
            (Nodes-relink_prev_out h (some p) none none zs none out n)),
    )

is-Outside : (o : Option Ptr) (p : Ptr) → Outside o (p ∷ []) → is o p ≡ false
is-Outside none p out = refl
is-Outside (some q) p out = ground arith

is-last : (x p : Ptr) (ys : List Ptr) → has p (x ∷ ys) ≡ false → is (last (some x) ys) p ≡ false
is-last x p ys out =
    is-Outside (last (some x) ys) p
      (last-Outside ys (some x) (p ∷ []) (ground arith) (λ q m. ground arith))

-- The new tail: the entry before the moved one if that was the tail, else the old tail.
tail-front :
    (x : Ptr) (xs : List Ptr) (p : Ptr) (ys : List Ptr)
    → has p ys ≡ false
    → (if is (last none (x ∷ xs ++ p ∷ ys)) p
        then last none (x ∷ xs)
        else last none (x ∷ xs ++ p ∷ ys))
      ≡ last none (p ∷ (x ∷ xs) ++ ys)
tail-front x xs p [] out =
    rw (last-append (some x) xs (p ∷ []), last-append (some x) xs []) (ground arith)
tail-front x xs p (y ∷ ys) out =
    rw (last-append (some x) xs (p ∷ y ∷ ys), last-append (some x) xs (y ∷ ys), is-last y p ys out)

module _ (c : LruCacheFs) (x : Ptr) (xs : List Ptr) (p : Ptr) (ys : List Ptr)
    (r : Repr c (x ∷ xs ++ p ∷ ys)) where
  unlink_form :
      unlink c.heap p
      ≡ relink_prev
          (first ys none)
          (last none (x ∷ xs))
          (relink_next (last none (x ∷ xs)) (first ys none) c.heap)
  unfolding unlink
  unlink_form =
      let (e, f, away, _) = Nodes-unlink c.heap (x ∷ xs) p ys r.distinct r.nodes in
      rw (e, f, away, f, e)

  -- Unlinking an entry leaves its own links as they were.
  own-unlink : unlink c.heap p p ≡ c.heap p
  own-unlink =
      let (_, _, away, _) = Nodes-unlink c.heap (x ∷ xs) p ys r.distinct r.nodes in
      let (_, (out, _), _) = Distinct-split (x ∷ xs) (p ∷ ys) r.distinct in
      ap (λ (h : Heap). h p) unlink_form
      ∙ relink_prev_away (relink_next (last none (x ∷ xs)) (first ys none) c.heap) (first ys none)
          (last none (x ∷ xs)) p (first-Outside ys (p ∷ []) (λ q m. ground arith))
      ∙ away

  move-SameItems : SameItems (move_to_front c p).heap c.heap
  unfolding move_to_front
  move-SameItems q = link_front-SameItems (unlink c.heap p) p c.head q ∙ unlink-SameItems c.heap p q

  move-name : (q : Ptr) → ((move_to_front c p).heap q).name ≡ (c.heap q).name
  move-name q = ap (λ (i : Item). i.name) (move-SameItems q)

  move-items :
      items (move_to_front c p).heap (p ∷ (x ∷ xs) ++ ys)
      ≡ item (c.heap p) ∷ items c.heap (x ∷ xs) ++ items c.heap ys
  move-items =
      items-SameItems (move_to_front c p).heap c.heap (p ∷ (x ∷ xs) ++ ys) move-SameItems
      ∙ ap (◌∷◌ (item (c.heap p))) (items-append c.heap (x ∷ xs) ys)

  move-Nodes : Nodes (move_to_front c p).heap none (p ∷ (x ∷ xs) ++ ys) none
  unfolding move_to_front
  move-Nodes =
      let (d, out) = unlink-Distinct c (x ∷ xs) p ys r in
      subst (λ o. Nodes (link_front (unlink c.heap p) p o) none (p ∷ (x ∷ xs) ++ ys) none)
        (sym r.head)
        (link_front-Nodes (unlink c.heap p) p (x ∷ xs ++ ys) out d
          (unlink-Nodes c.heap (x ∷ xs) p ys r.distinct r.nodes))

  move-tail : (move_to_front c p).tail ≡ last none (p ∷ (x ∷ xs) ++ ys)
  unfolding move_to_front
  move-tail =
      let (_, (out, _), _) = Distinct-split (x ∷ xs) (p ∷ ys) r.distinct in
      ap (λ (e : CacheEntry). if is c.tail p then e.prev else c.tail) own-unlink
      ∙ rw (prev-last c (x ∷ xs) p ys r, r.tail) (tail-front x xs p ys out)

  move-Repr : Repr (move_to_front c p) (p ∷ (x ∷ xs) ++ ys)
  unfolding move_to_front
  move-Repr =
      let (d, out) = unlink-Distinct c (x ∷ xs) p ys r in
      record {
        head = refl;
        tail = move-tail;
        nodes = move-Nodes;
        distinct = (out, d);
        sound = λ n q h.
            let (m, e) = r.sound n q h in
            (ground (arith, has-unlink (x ∷ xs) p ys q), move-name q ∙ e);
        complete =
            λ q m. rw (move-name q) (r.complete q (ground (arith, has-unlink (x ∷ xs) p ys q)));
        keys = r.keys;
        counted =
            omega (arith, r.counted, length-append (x ∷ xs) (p ∷ ys), length-append (x ∷ xs) ys);
        bytes = r.bytes ∙ total-evict c (x ∷ xs) p ys r ∙ sym (ap total move-items);
        within = r.within;
        allocated = λ q m. r.allocated q (ground (arith, has-unlink (x ∷ xs) p ys q));
      }

-- `d` holds the entry `p` of `c` in front, and the others in their order.
abbrev pub Fronted : LruCacheFs → List Ptr → Ptr → List Ptr → LruCacheFs → Type 0
Fronted c xs p ys d =
    Repr d (p ∷ xs ++ ys)
    × (items d.heap (p ∷ xs ++ ys) ≡ item (c.heap p) ∷ items c.heap xs ++ items c.heap ys)

touch_at_head : (c : LruCacheFs) (p : Ptr) → is c.head p ≡ true → touch_locked c p ≡ c
unfolding touch_locked
touch_at_head c p e = rw e

touch_behind :
    (c : LruCacheFs) (p : Ptr) → is c.head p ≡ false → touch_locked c p ≡ move_to_front c p
unfolding touch_locked
touch_behind c p e = rw e

-- A touched entry of the cache becomes the most recent one, and nothing else changes.
pub touch-Repr :
    (c : LruCacheFs) (xs : List Ptr) (p : Ptr) (ys : List Ptr)
    → Repr c (xs ++ p ∷ ys)
    → Fronted c xs p ys (touch_locked c p)
touch-Repr c [] p ys r =
    subst (Fronted c [] p ys) (sym (touch_at_head c p (rw r.head (ground arith)))) (r, refl)
touch-Repr c (x ∷ xs) p ys r =
    let out = r.distinct.0 in
    subst (Fronted c (x ∷ xs) p ys)
      (sym (touch_behind c p (rw r.head (ground (arith, has-unlink xs p ys x)))))
      (move-Repr c x xs p ys r, move-items c x xs p ys r)
