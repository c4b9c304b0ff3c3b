-- ===== src/Lru/Repr.antt =====
-- When a cache on the heap stands for a list of items, most recently used first.
use swim.Prelude.{
  ℕ, ◌+◌, ◌≡◌, refl, ◌∙◌, ◌≤◌, ◌<◌, true, Option, none, some, List, [], ◌∷◌, ◌++◌, arith, Text,
  text_eq, has, nat_eq, length, is,
}
use swim.Prelude.Dict.{lookup, NodupKeys}
use swim.Prelude.Int.{ℤ, pos_part}
use swim.Lru.{
  Ptr, Heap, LruCacheFs, relink_next, relink_prev, set_next, set_prev, unlink, new_lru_cache_fs,
  Item, item,
}
use swim.Lru.Chain.{first, last, Nodes, Distinct, Nodes-unlink}

abbrev pub items : Heap → List Ptr → List Item
items h [] = []
items h (p ∷ ps) = item (h p) ∷ items h ps

abbrev pub total : List Item → ℕ
total [] = 0
total (i ∷ is) = i.size + total is

pub record Repr (c : LruCacheFs) (ps : List Ptr) : Type 0 where
  pub head : c.head ≡ first ps none
  pub tail : c.tail ≡ last none ps
  pub nodes : Nodes c.heap none ps none
  pub distinct : Distinct ps
  pub sound :
      (n : Text) (p : Ptr) → lookup n c.entries ≡ some p → (has p ps ≡ true) × ((c.heap p).name ≡ n)
  pub complete : (p : Ptr) → has p ps ≡ true → lookup (c.heap p).name c.entries ≡ some p
  pub keys : NodupKeys c.entries
  pub counted : length c.entries ≡ length ps
  pub bytes : c.cur_bytes ≡ total (items c.heap ps)
  pub within : c.cur_bytes ≤ pos_part c.max_bytes
  pub allocated : (p : Ptr) → has p ps ≡ true → p < c.fresh

-- Two heaps that differ in links only show the same items.
abbrev pub SameItems : Heap → Heap → Type 0
SameItems g h = (q : Ptr) → item (g q) ≡ item (h q)

pub items-SameItems : (g h : Heap) (ps : List Ptr) → SameItems g h → items g ps ≡ items h ps
items-SameItems g h [] same = refl
items-SameItems g h (p ∷ ps) same = cc (same p, items-SameItems g h ps same)

pub items-append : (h : Heap) (xs ys : List Ptr) → items h (xs ++ ys) ≡ items h xs ++ items h ys
items-append h [] ys = refl
items-append h (x ∷ xs) ys = rw (items-append h xs ys)

pub total-append : (xs ys : List Item) → total (xs ++ ys) ≡ total xs + total ys
total-append [] ys = omega arith
total-append (x ∷ xs) ys = omega (arith, total-append xs ys)

pub relink_next-SameItems : (o v : Option Ptr) (h : Heap) → SameItems (relink_next o v h) h
unfolding relink_next set_next
relink_next-SameItems none v h q = refl
relink_next-SameItems (some p) v h q = ground arith

pub relink_prev-SameItems : (o v : Option Ptr) (h : Heap) → SameItems (relink_prev o v h) h
unfolding relink_prev set_prev
relink_prev-SameItems none v h q = refl
relink_prev-SameItems (some p) v h q = ground arith

pub unlink-SameItems : (h : Heap) (p : Ptr) → SameItems (unlink h p) h
unfolding unlink
unlink-SameItems h p q =
    relink_prev-SameItems _ _ (relink_next (h p).prev (h p).next h) q
    ∙ relink_next-SameItems _ _ h q

-- Before any read the cache stands for the empty list.
pub new-Repr : (max_bytes : ℤ) → Repr (new_lru_cache_fs max_bytes) []
unfolding new_lru_cache_fs lookup
new-Repr max_bytes = record {
  head = refl;
  tail = refl;
  nodes = tt;
  distinct = tt;
  sound = λ n p h. cc;
  complete = λ p m. cc;
  keys = tt;
  counted = refl;
  bytes = refl;
  within = omega arith;
  allocated = λ p m. cc;
}

module _ (h : Heap) (xs : List Ptr) (p : Ptr) (ys : List Ptr) where
  pub unlink-Nodes :
      Distinct (xs ++ p ∷ ys)
      → Nodes h none (xs ++ p ∷ ys) none
      → Nodes (unlink h p) none (xs ++ ys) none
  unfolding unlink
  unlink-Nodes d n =
      let (e, f, away, chain) = Nodes-unlink h xs p ys d n in rw (e, f, away, f, e) chain
