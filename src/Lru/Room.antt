-- ===== src/Lru/Room.antt =====
-- The loop of `addLocked`: it ends, and it leaves the longest front part of the list that fits.
use mathlib.Core.List.{append-nil}
use swim.Prelude.{
  has, nat_eq, ℕ, zero, suc, subst, ◌+◌, ◌-◌, ◌≡◌, refl, ◌∙◌, ap, sym, ◌≤◌, ◌<◌, ◌⊎◌, inl, inr,
  true, false, none, some, List, [], ◌∷◌, ◌++◌, arith, leb, if◌then◌else◌, length, length-append,
  Bool-cases,
}
use swim.Prelude.Int.{exceeds, pos}
use swim.Lru.{Item, item, Ptr, LruCacheFs, unlink, evict_locked, make_room}
use swim.Lru.Chain.{has-append, last-append}
use swim.Lru.Repr.{items, total, Repr, SameItems, items-SameItems, items-append, unlink-SameItems}
use swim.Lru.Evict.{evict-Repr}

-- The longest front part whose sizes add up to at most the budget.
unfoldable pub fitting : ℕ → List Item → List Item
fitting budget [] = []
fitting budget (i ∷ is) = if leb i.size budget then i ∷ fitting (budget - i.size) is else []

fitting-all : (b : ℕ) (is : List Item) → total is ≤ b → fitting b is ≡ is
unfolding fitting
fitting-all b [] h = refl
fitting-all b (i ∷ is) h = ground (arith, fitting-all (b - i.size) is)

fitting-drop_last :
    (b : ℕ) (is : List Item) (j : Item)
    → b < total (is ++ j ∷ [])
    → fitting b (is ++ j ∷ []) ≡ fitting b is
unfolding fitting
fitting-drop_last b [] j h = ground arith
fitting-drop_last b (i ∷ is) j h = ground (arith, fitting-drop_last (b - i.size) is j)

Snoc-cases : (ps : List Ptr) → (ps ≡ []) ⊎ ((xs : List Ptr) × (p : Ptr) × (ps ≡ xs ++ p ∷ []))
Snoc-cases [] = inl refl
Snoc-cases (p ∷ ps) = elim (Snoc-cases ps) [
  | inl e ↦ inr ([], p, rw e)
  | inr (xs, q, e) ↦ inr (p ∷ xs, q, rw e)
]

max-evict : (c : LruCacheFs) (p : Ptr) → (evict_locked c p).max_bytes ≡ c.max_bytes
unfolding evict_locked
max-evict c p = refl

-- What the loop promises: room for `size` bytes more, and the most recent items that leave it.
pub record Roomy (m size : ℕ) (c : LruCacheFs) (ps : List Ptr) (c' : LruCacheFs) (qs : List Ptr)
    : Type 0 where
  pub repr : Repr c' qs
  pub max : c'.max_bytes ≡ pos m
  pub room : c'.cur_bytes + size ≤ m
  pub kept : items c'.heap qs ≡ fitting (m - size) (items c.heap ps)
  pub sub : (q : Ptr) → has q qs ≡ true → has q ps ≡ true
  pub same : SameItems c'.heap c.heap
  pub fresh : c'.fresh ≡ c.fresh

module _ (m size : ℕ) (fits : size ≤ m) where
  -- An eviction takes nothing that would have stayed.
  Roomy-evict :
      (c : LruCacheFs) (xs : List Ptr) (p : Ptr) (c' : LruCacheFs) (qs : List Ptr)
      → Repr c (xs ++ p ∷ [])
      → m < c.cur_bytes + size
      → Roomy m size (evict_locked c p) xs c' qs
      → Roomy m size c (xs ++ p ∷ []) c' qs
  unfolding evict_locked
  Roomy-evict c xs p c' qs r over after = record {
    repr = after.repr;
    max = after.max;
    room = after.room;
    kept =
        after.kept
        ∙ ap (fitting (m - size))
            (items-SameItems (unlink c.heap p) c.heap xs (unlink-SameItems c.heap p))
        ∙ sym (fitting-drop_last (m - size) (items c.heap xs) (item (c.heap p)) larger)
        ∙ ap (fitting (m - size)) (sym (items-append c.heap xs (p ∷ [])));
    sub = λ q m. ground (arith, after.sub q, has-append q xs (p ∷ []));
    same = λ q. after.same q ∙ unlink-SameItems c.heap p q;
    fresh = after.fresh;
  }
    where
      larger : m - size < total (items c.heap xs ++ item (c.heap p) ∷ [])
      larger = rw (← items-append c.heap xs (p ∷ [])) (omega (arith, r.bytes))

  make_room_stop :
      (fuel : ℕ) (c : LruCacheFs)
      → exceeds (c.cur_bytes + size) c.max_bytes ≡ false
      → make_room (suc fuel) size c ≡ some c
  unfolding make_room
  make_room_stop fuel c e = rw (e, make_room)

  make_room_evict :
      (fuel : ℕ) (c : LruCacheFs) (t : Ptr)
      → exceeds (c.cur_bytes + size) c.max_bytes ≡ true
      → c.tail ≡ some t
      → make_room (suc fuel) size c ≡ make_room fuel size (evict_locked c t)
  unfolding make_room
  make_room_evict fuel c t e f = ground arith

  Roomy-stop :
      (c : LruCacheFs) (ps : List Ptr)
      → c.max_bytes ≡ pos m
      → exceeds (c.cur_bytes + size) c.max_bytes ≡ false
      → Repr c ps
      → Roomy m size c ps c ps
  Roomy-stop c ps e ok r =
      let room : c.cur_bytes + size ≤ m = ground arith in
      record {
        repr = r;
        max = e;
        room = room;
        kept = sym (fitting-all (m - size) (items c.heap ps) (omega (arith, r.bytes)));
        sub = λ q m. m;
        same = λ q. refl;
        fresh = refl;
      }

  abbrev Done : ℕ → LruCacheFs → List Ptr → Type 0
  Done fuel c ps =
      (c' : LruCacheFs) × (qs : List Ptr) × (make_room fuel size c ≡ some c')
      × Roomy m size c ps c' qs

  empty-fits :
      (c : LruCacheFs)
      → c.max_bytes ≡ pos m
      → Repr c []
      → exceeds (c.cur_bytes + size) c.max_bytes ≡ false
  empty-fits c e r = let none_left : c.cur_bytes ≡ 0 = r.bytes in ground arith

  tail-snoc : (c : LruCacheFs) (xs : List Ptr) (p : Ptr) → Repr c (xs ++ p ∷ []) → c.tail ≡ some p
  tail-snoc c xs p r = r.tail ∙ last-append none xs (p ∷ [])

  evict_round :
      (fuel : ℕ) (c : LruCacheFs) (xs : List Ptr) (p : Ptr)
      → c.max_bytes ≡ pos m
      → exceeds (c.cur_bytes + size) c.max_bytes ≡ true
      → Repr c (xs ++ p ∷ [])
      → Done fuel (evict_locked c p) xs
      → Done (suc fuel) c (xs ++ p ∷ [])
  evict_round fuel c xs p e over r (c', qs, run, roomy) = (
    c',
    qs,
    make_room_evict fuel c p over (tail-snoc c xs p r) ∙ run,
    Roomy-evict c xs p c' qs r (ground arith) roomy,
  )

  -- Of a cache with a limit of `m` bytes, for a file of at most `m`, and with more rounds than
  -- entries: the loop ends, leaves a well-linked cache with room for the file, and keeps the most
  -- recent items that fit beside it.
  pub make_room-Roomy :
      (fuel : ℕ) (c : LruCacheFs) (ps : List Ptr)
      → length ps < fuel
      → c.max_bytes ≡ pos m
      → Repr c ps
      → Done fuel c ps
  make_room-Roomy zero c ps short e r = absurd (omega arith)
  make_room-Roomy (suc fuel) c ps short e r =
      elim (Bool-cases (exceeds (c.cur_bytes + size) c.max_bytes)) [
        | inr ok ↦ (c, ps, make_room_stop fuel c ok, Roomy-stop c ps e ok r)
        | inl over ↦ elim (Snoc-cases ps) [
          | inl nil ↦ let r' : Repr c [] = subst (Repr c) nil r in cc (over, empty-fits c e r')
          | inr (xs, p, snoc) ↦
              let r' : Repr c (xs ++ p ∷ []) = subst (Repr c) snoc r in
              let s : Repr (evict_locked c p) xs =
                subst (Repr (evict_locked c p)) (append-nil xs) (evict-Repr c xs p [] r') in
              let fewer : length xs < fuel =
                omega (arith, ap length snoc, length-append xs (p ∷ [])) in
              subst (Done (suc fuel) c) (sym snoc) (
                evict_round fuel c xs p e over r'
                  (make_room-Roomy fuel (evict_locked c p) xs fewer (max-evict c p ∙ e) s))
        ]
      ]
