-- ===== src/Lru/Add.antt =====
-- A new entry on the heap, and the end of `addLocked` that puts it before the list.
use swim.Prelude.{
  ℕ_discrete, inl, inr, suc, subst, ◌+◌, ◌≡◌, refl, ◌∙◌, ap, sym, ◌≤◌, ◌<◌, true, false, Option,
  none, some, List, [], ◌∷◌, arith, Text, text_eq, has, nat_eq,
}
use swim.Prelude.Dict.{
  lookup, insert, lookup-insert_self, lookup-insert_ne, lookup-insert_cases, ne_of_lookup,
  insert-NodupKeys, length-insert_new,
}
use swim.Prelude.Int.{pos_part}
use swim.Lru.{Item, item, Ptr, Heap, CacheEntry, LruCacheFs, if_live, link_front, push_front, alloc}
use swim.Lru.Chain.{last, Nodes}
use swim.Lru.Repr.{items, total, Repr, items-SameItems}
use swim.Lru.Evict.{if_live-last}
use swim.Lru.Touch.{link_front-SameItems, link_front-Nodes}

-- A chain and its items depend only on the objects in it.
abbrev Agree : List Ptr → Heap → Heap → Type 0
Agree ps g h = (q : Ptr) → has q ps ≡ true → g q ≡ h q

Agree-tail : (p : Ptr) (ps : List Ptr) (g h : Heap) → Agree (p ∷ ps) g h → Agree ps g h
Agree-tail p ps g h same q m = same q (ground arith)

Agree-head : (p : Ptr) (ps : List Ptr) (g h : Heap) → Agree (p ∷ ps) g h → g p ≡ h p
Agree-head p ps g h same = same p (ground arith)

items-Agree : (ps : List Ptr) (g h : Heap) → Agree ps g h → items g ps ≡ items h ps
items-Agree [] g h same = refl
items-Agree (p ∷ ps) g h same =
    let e : item (g p) ≡ item (h p) = ap item (Agree-head p ps g h same) in
    cc (e, items-Agree ps g h (Agree-tail p ps g h same))

Nodes-Agree :
    (b : Option Ptr) (ps : List Ptr) (a : Option Ptr) (g h : Heap)
    → Agree ps g h
    → Nodes h b ps a
    → Nodes g b ps a
Nodes-Agree b [] a g h same n = tt
Nodes-Agree b (p ∷ ps) a g h same (e, f, n) =
    let k = Agree-head p ps g h same in
    (
      ap (λ (x : CacheEntry). x.prev) k ∙ e,
      ap (λ (x : CacheEntry). x.next) k ∙ f,
      Nodes-Agree (some p) ps a g h (Agree-tail p ps g h same) n,
    )

module _ (c : LruCacheFs) (e : CacheEntry) where
  pub heap-alloc : (alloc c e).heap c.fresh ≡ e
  unfolding alloc
  heap-alloc = ground arith

  pub alloc-max : (alloc c e).max_bytes ≡ c.max_bytes
  unfolding alloc
  alloc-max = refl

  pub alloc-entries : (alloc c e).entries ≡ c.entries
  unfolding alloc
  alloc-entries = refl

  pub fresh-alloc : (alloc c e).fresh ≡ suc c.fresh
  unfolding alloc
  fresh-alloc = refl

  heap-alloc_old : (q : Ptr) → q < c.fresh → (alloc c e).heap q ≡ c.heap q
  unfolding alloc
  heap-alloc_old q old = ground arith

  alloc-Agree : (ps : List Ptr) → Repr c ps → Agree ps (alloc c e).heap c.heap
  alloc-Agree ps r q m = heap-alloc_old q (r.allocated q m)

  pub alloc-items : (ps : List Ptr) → Repr c ps → items (alloc c e).heap ps ≡ items c.heap ps
  alloc-items ps r = items-Agree ps (alloc c e).heap c.heap (alloc-Agree ps r)

  pub fresh-out : (ps : List Ptr) → Repr c ps → has c.fresh ps ≡ false
  fresh-out ps r = ground (arith, r.allocated c.fresh)

  -- An object that is not yet in the cache changes nothing.
  pub alloc-Repr : (ps : List Ptr) → Repr c ps → Repr (alloc c e) ps
  unfolding alloc
  alloc-Repr ps r =
      let same = alloc-Agree ps r in
      record {
        head = r.head;
        tail = r.tail;
        nodes = Nodes-Agree none ps none (alloc c e).heap c.heap same r.nodes;
        distinct = r.distinct;
        sound = λ n p h.
            let (m, k) = r.sound n p h in (m, ap (λ (x : CacheEntry). x.name) (same p m) ∙ k);
        complete = λ p m.
            subst (λ (x : CacheEntry). lookup x.name c.entries ≡ some p) (sym (same p m))
              (r.complete p m);
        keys = r.keys;
        counted = r.counted;
        bytes = r.bytes ∙ sym (ap total (alloc-items ps r));
        within = r.within;
        allocated = λ p m. omega (arith, r.allocated p m);
      }

module _ (c : LruCacheFs) (p : Ptr) (ps : List Ptr) (r : Repr c ps) where
  push-name : (q : Ptr) → ((push_front c p).heap q).name ≡ (c.heap q).name
  unfolding push_front
  push-name q = ap (λ (i : Item). i.name) (link_front-SameItems c.heap p c.head q)

  pub push-items : items (push_front c p).heap (p ∷ ps) ≡ item (c.heap p) ∷ items c.heap ps
  unfolding push_front
  push-items =
      items-SameItems (link_front c.heap p c.head) c.heap (p ∷ ps)
        (link_front-SameItems c.heap p c.head)

  -- The tail stays, and is the new entry if there was none.
  push-tail :
      (qs : List Ptr) → ps ≡ qs → if_live (last none qs) (last none qs) (some p) ≡ last (some p) qs
  push-tail [] e = refl
  push-tail (q ∷ qs) e = if_live-last q qs _ _

  push_sound :
      (n : Text) (q : Ptr)
      → lookup n (insert (c.heap p).name p c.entries) ≡ some q
      → (has q (p ∷ ps) ≡ true) × ((c.heap q).name ≡ n)
  push_sound n q h = elim (lookup-insert_cases n (c.heap p).name p q c.entries h) [
    | inl (new, same) ↦ (ground arith, ap (λ z. (c.heap z).name) same ∙ sym new)
    | inr old ↦ let (m, e) = r.sound n q old in (ground arith, e)
  ]

  push_complete :
      (q : Ptr)
      → has p ps ≡ false
      → lookup (c.heap p).name c.entries ≡ none
      → has q (p ∷ ps) ≡ true
      → lookup (c.heap q).name (insert (c.heap p).name p c.entries) ≡ some q
  push_complete q out absent m = elim (ℕ_discrete q p) [
    | yes e ↦ rw e (lookup-insert_self (c.heap p).name p c.entries)
    | no ne ↦
        let old = r.complete q (ground arith) in
        lookup-insert_ne _ _ p c.entries (ne_of_lookup _ _ q c.entries old absent) ∙ old
  ]

  pub push-Repr :
      has p ps ≡ false
      → p < c.fresh
      → lookup (c.heap p).name c.entries ≡ none
      → c.cur_bytes + (c.heap p).size ≤ pos_part c.max_bytes
      → Repr (push_front c p) (p ∷ ps)
  unfolding push_front
  push-Repr out old absent fits = record {
    head = refl;
    tail = rw r.tail (push-tail ps refl);
    nodes =
        subst (λ o. Nodes (link_front c.heap p o) none (p ∷ ps) none) (sym r.head)
          (link_front-Nodes c.heap p ps out r.distinct r.nodes);
    distinct = (out, r.distinct);
    sound = λ n q h. let (m, e) = push_sound n q h in (m, push-name q ∙ e);
    complete = λ q m. rw (push-name q) (push_complete q out absent m);
    keys = insert-NodupKeys _ p c.entries r.keys;
    counted = omega (arith, length-insert_new (c.heap p).name p c.entries absent, r.counted);
    bytes = omega (arith, r.bytes, ap total push-items);
    within = fits;
    allocated = λ q m. ground (arith, r.allocated q);
  }
