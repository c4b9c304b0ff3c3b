-- ===== src/Lru/Refine.antt =====
-- `Open` on the heap does what the abstract cache does.
use mathlib.Core.Option
use swim.Prelude.{
  ℕ, ℕ_discrete, suc, subst, ◌-◌, ◌≡◌, ◌≢◌, refl, ◌∙◌, ap, sym, ◌≤◌, ◌<◌, true, false, none, some,
  List, [], ◌∷◌, ◌++◌, arith, Text, text_eq, has, nat_eq, length, Option-cases, inl, inr,
}
use mathlib.Core.Logic.{if_pos, if_neg}
use swim.Prelude.Dict.{lookup}
use swim.Prelude.Int.{exceeds, ℤ, pos, negsuc, pos_part}
use swim.Lru.{
  Item, item, Ptr, Heap, CacheEntry, LruCacheFs, touch_locked, move_to_front, make_room, push_front,
  add_locked, alloc,
}
use mathlib.Core.List.{head-eq_of_cons-eq}
use swim.Lru.Chain.{has-append}
use swim.Lru.Repr.{items, Repr}
use swim.Lru.Evict.{name-ne}
use swim.Lru.Touch.{touch-Repr}
use swim.Lru.Room.{fitting, Roomy, make_room-Roomy}
use swim.Lru.Add.{
  alloc-max, fresh-alloc, heap-alloc, alloc-items, alloc-Repr, fresh-out, push-items, push-Repr,
}
use swim.Lru.Recent.{find, remove, add}

-- The cache holds exactly these items, most recently used first.
pub record Represents (c : LruCacheFs) (is : List Item) : Type 0 where
  pub chain : List Ptr
  pub repr : Repr c chain
  pub view : items c.heap chain ≡ is

has-split :
    (p : Ptr) (ps : List Ptr)
    → has p ps ≡ true
    → (xs : List Ptr) × (ys : List Ptr) × (ps ≡ xs ++ p ∷ ys)
has-split p [] m = cc
has-split p (q ∷ ps) m = elim (ℕ_discrete p q) [
  | yes e ↦ ([], ps, ap (λ z. z ∷ ps) (sym e))
  | no ne ↦ let (xs, ys, e) = has-split p ps (ground arith) in (q ∷ xs, ys, ap (◌∷◌ q) e)
]

module _ (n : Text) (i : Item) (is : List Item) where
  find-cons_ne : i.name ≢ n → find n (i ∷ is) ≡ find n is
  unfolding find
  find-cons_ne ne = rw (if_neg _ ne)

  remove-cons_ne : i.name ≢ n → remove n (i ∷ is) ≡ i ∷ remove n is
  unfolding remove
  remove-cons_ne ne = rw (if_neg _ ne)

  find-cons_eq : i.name ≡ n → find n (i ∷ is) ≡ some i
  unfolding find
  find-cons_eq e = rw (if_pos _ e)

  remove-cons_eq : i.name ≡ n → remove n (i ∷ is) ≡ is
  unfolding remove
  remove-cons_eq e = rw (if_pos _ e)

module _ (h : Heap) (n : Text) where
  find_absent :
      (ps : List Ptr) → ((q : Ptr) → has q ps ≡ true → (h q).name ≢ n) → find n (items h ps) ≡ none
  unfolding find
  find_absent [] other = refl
  find_absent (p ∷ ps) other =
      find-cons_ne n (item (h p)) (items h ps) (other p (ground arith))
      ∙ find_absent ps (λ q m. other q (ground arith))

  find_at :
      (xs : List Ptr) (p : Ptr) (ys : List Ptr)
      → (h p).name ≡ n
      → ((q : Ptr) → has q xs ≡ true → (h q).name ≢ n)
      → (find n (items h (xs ++ p ∷ ys)) ≡ some (item (h p)))
        × (remove n (items h (xs ++ p ∷ ys)) ≡ items h xs ++ items h ys)
  find_at [] p ys e other = (find-cons_eq n _ (items h ys) e, remove-cons_eq n _ (items h ys) e)
  find_at (x ∷ xs) p ys e other =
      let (f, g) = find_at xs p ys e (λ q m. other q (ground arith)) in
      let ne = other x (ground arith) in
      (
        find-cons_ne n _ (items h (xs ++ p ∷ ys)) ne ∙ f,
        remove-cons_ne n _ (items h (xs ++ p ∷ ys)) ne ∙ ap (◌∷◌ (item (h x))) g,
      )

-- Of a cache that stands for `is`: what its map says of a name, the list says too.
abbrev Hit : LruCacheFs → List Item → Text → Ptr → Type 0
Hit c is name p =
    (find name is ≡ some (item (c.heap p)))
    × Represents (touch_locked c p) (item (c.heap p) ∷ remove name is)
    × (item ((touch_locked c p).heap p) ≡ item (c.heap p))

module _ (c : LruCacheFs) (name : Text) where
  Hit-split :
      (p : Ptr) (xs ys : List Ptr)
      → Repr c (xs ++ p ∷ ys)
      → (c.heap p).name ≡ name
      → Hit c (items c.heap (xs ++ p ∷ ys)) name p
  Hit-split p xs ys r e =
      let (f, g) =
        find_at c.heap name xs p ys e
          (λ q m k. name-ne c xs p ys r q (ground (arith, has-append q xs ys)) (k ∙ sym e)) in
      let (t, v) = touch-Repr c xs p ys r in
      (
        f,
        record { chain = p ∷ xs ++ ys; repr = t; view = v ∙ ap (◌∷◌ (item (c.heap p))) (sym g) },
        head-eq_of_cons-eq v,
      )

  pub hit_lem :
      (p : Ptr) (is : List Item)
      → Represents c is
      → lookup name c.entries ≡ some p
      → Hit c is name p
  hit_lem p is rep h =
      let (m, e) = rep.repr.sound name p h in
      let (xs, ys, split) = has-split p rep.chain m in
      subst (λ js. Hit c js name p) (ap (items c.heap) (sym split) ∙ rep.view)
        (Hit-split p xs ys (subst (Repr c) split rep.repr) e)

  pub miss_lem :
      (is : List Item) → Represents c is → lookup name c.entries ≡ none → find name is ≡ none
  miss_lem is rep h =
      subst (λ js. find name js ≡ none) rep.view
        (find_absent c.heap name rep.chain
          (λ q m e. let at = rep.repr.complete q m in ground arith))

max-push : (c : LruCacheFs) (p : Ptr) → (push_front c p).max_bytes ≡ c.max_bytes
unfolding push_front
max-push c p = refl

pub max-touch : (c : LruCacheFs) (p : Ptr) → (touch_locked c p).max_bytes ≡ c.max_bytes
unfolding touch_locked move_to_front
max-touch c p = ground arith

pub exceeds-pos : (n : ℕ) (z : ℤ) → exceeds n z ≡ false → (m : ℕ) × (z ≡ pos m) × (n ≤ m)
exceeds-pos n (pos m) h = (m, refl, ground arith)
exceeds-pos n (negsuc m) h = cc

module _ (c : LruCacheFs) (e : CacheEntry) (m : ℕ) (max : c.max_bytes ≡ pos m)
    (fits : e.size ≤ m) where
  -- After the loop the new entry is still apart from the chain, and its name unused.
  Roomy-absent :
      (ps : List Ptr) (d : LruCacheFs) (qs : List Ptr)
      → Repr (alloc c e) ps
      → lookup e.name c.entries ≡ none
      → Roomy m e.size (alloc c e) ps d qs
      → lookup e.name d.entries ≡ none
  unfolding alloc
  Roomy-absent ps d qs r absent roomy = elim (Option-cases (lookup e.name d.entries)) [
    | inl e ↦ e
    | inr (q, found) ↦
        let (m, named) = roomy.repr.sound e.name q found in
        let renamed = ap (λ (i : Item). i.name) (roomy.same q) in
        let known = r.complete q (roomy.sub q m) in
        let clash : lookup e.name c.entries ≡ some q =
          ap (λ n. lookup n c.entries) (sym named ∙ renamed) ∙ known in
        cc
  ]

  add_run :
      (d : LruCacheFs)
      → make_room (suc (length (alloc c e).entries)) e.size (alloc c e) ≡ some d
      → add_locked (alloc c e) c.fresh ≡ some (push_front d c.fresh)
  unfolding add_locked
  add_run d run =
      ap
        (λ (x : CacheEntry).
          Option.map (λ c'. push_front c' c.fresh)
            (make_room (suc (length (alloc c e).entries)) x.size (alloc c e)))
        (heap-alloc c e)
      ∙ ap (Option.map (λ c'. push_front c' c.fresh)) run

  abbrev Added : List Item → Type 0
  Added is =
      (d : LruCacheFs) × (add_locked (alloc c e) c.fresh ≡ some d)
      × Represents d (add c.max_bytes (item e) is)
      × (item (d.heap c.fresh) ≡ item e)
      × (d.max_bytes ≡ c.max_bytes)

  add_done :
      (is : List Item) (rep : Represents c is)
      → lookup e.name c.entries ≡ none
      → (d : LruCacheFs) (qs : List Ptr)
      → make_room (suc (length (alloc c e).entries)) e.size (alloc c e) ≡ some d
      → Roomy m e.size (alloc c e) rep.chain d qs
      → Added is
  unfolding add
  add_done is rep absent d qs run roomy =
      let p = c.fresh in
      let r = alloc-Repr c e rep.chain rep.repr in
      let shown : item (d.heap p) ≡ item e = roomy.same p ∙ ap item (heap-alloc c e) in
      let out : has p qs ≡ false = ground (arith, roomy.sub p, fresh-out c e rep.chain rep.repr) in
      let size : (d.heap p).size ≡ e.size = ap (λ (i : Item). i.size) shown in
      let name : (d.heap p).name ≡ e.name = ap (λ (i : Item). i.name) shown in
      let old : p < d.fresh = omega (arith, roomy.fresh, fresh-alloc c e) in
      let kept : items d.heap qs ≡ fitting (pos_part c.max_bytes - e.size) is =
        roomy.kept
        ∙ ap (fitting (m - e.size)) (alloc-items c e rep.chain rep.repr ∙ rep.view)
        ∙ ap (λ z. fitting (pos_part z - e.size) is) (sym max) in
      let push =
        push-Repr d p qs roomy.repr out old
          (ap (λ n. lookup n d.entries) name ∙ Roomy-absent rep.chain d qs r absent roomy)
          (rw size (rw roomy.max roomy.room)) in
      let view = push-items d p qs roomy.repr in
      (
        push_front d p,
        add_run d run,
        record { chain = p ∷ qs; repr = push; view = view ∙ cc (shown, kept) },
        head-eq_of_cons-eq view ∙ shown,
        max-push d p ∙ roomy.max ∙ sym max,
      )

  pub add_lem : (is : List Item) → Represents c is → lookup e.name c.entries ≡ none → Added is
  add_lem is rep absent =
      let ps = rep.chain in
      let r = alloc-Repr c e ps rep.repr in
      let (d, qs, run, roomy) =
        make_room-Roomy m e.size fits (suc (length (alloc c e).entries)) (alloc c e) ps
          (omega (arith, r.counted)) (alloc-max c e ∙ max) r in
      add_done is rep absent d qs run roomy
