-- ===== src/Lru/Threads.antt =====
-- Any number of threads in `Open`. The lock is held in two sections, which are the steps here;
-- between them a thread reads a file from the base, so its entry may be of any age when it
-- reaches the second one, and other threads may have cached that file meanwhile.
use swim.Prelude.{
  ◌-◌, arith, subst, ◌≤◌, ◌≡◌, refl, ◌∙◌, ap, sym, false, Option, none, some, List, [], ◌∷◌, Text,
  text_eq, Option-cases, inl, inr,
}
use mathlib.Core.Option
use swim.Prelude.Dict.{lookup}
use swim.Prelude.Int.{exceeds, ℤ, pos_part}
use swim.Lru.{Item, item, Ptr, CacheEntry, LruCacheFs, new_lru_cache_fs, touch_locked, alloc}
use swim.Lru.Repr.{new-Repr, total}
use swim.Lru.Room.{fitting}
use swim.Lru.Recent.{remove, add}
use mathlib.Core.Option.{some-injective}
use swim.Lru.Add.{heap-alloc, alloc-max, alloc-entries}
use swim.Lru.Open.{store_at, store_locked}
use swim.Lru.Refine.{Represents, hit_lem, add_lem, max-touch, exceeds-pos}
use swim.Lru.Correct.{alloc-Represents}

-- `c` has become `d` while one thread held the lock.
pub data Step (c : LruCacheFs) : LruCacheFs → Type 0 where
  hit : (name : Text) (p : Ptr) → lookup name c.entries ≡ some p → Step c (touch_locked c p)
  store :
      (e : CacheEntry) {d : LruCacheFs} (p : Ptr)
      → exceeds e.size c.max_bytes ≡ false
      → store_locked (alloc c e) c.fresh ≡ some (d, p)
      → Step c d
  -- A file too large for the cache becomes an object, and is not stored.
  skip : (e : CacheEntry) → Step c (alloc c e)

pub data Reach (max : ℤ) : LruCacheFs → Type 0 where
  start : Reach max (new_lru_cache_fs max)
  next : {c d : LruCacheFs} → Reach max c → Step c d → Reach max d

-- What the second section leaves and returns: the served entry is the most recent one, and
-- bears the name that was asked for.
abbrev pub Stored : LruCacheFs → CacheEntry → Type 0
Stored c e =
    (d : LruCacheFs) × (p : Ptr) × (js : List Item) × (store_locked (alloc c e) c.fresh
      ≡ some (d, p))
    × Represents d (item (d.heap p) ∷ js)
    × ((d.heap p).name ≡ e.name)
    × (d.max_bytes ≡ c.max_bytes)

module _ (c : LruCacheFs) (is : List Item) (rep : Represents c is) where
  store_form :
      (e : CacheEntry) (o : Option Ptr)
      → lookup e.name c.entries ≡ o
      → store_locked (alloc c e) c.fresh ≡ store_at (alloc c e) c.fresh o
  unfolding store_locked
  store_form e o found = ap (store_at (alloc c e) c.fresh) (
      ap (λ (x : CacheEntry). lookup x.name (alloc c e).entries) (heap-alloc c e)
      ∙ ap (lookup e.name) (alloc-entries c e)
      ∙ found)

  store_new :
      (e : CacheEntry)
      → exceeds e.size c.max_bytes ≡ false
      → lookup e.name c.entries ≡ none
      → Stored c e
  unfolding add
  store_new e small absent =
      let (m, max, fits) = exceeds-pos e.size c.max_bytes small in
      let (d, run, r, shown, same) = add_lem c e m max fits is rep absent in
      (
        d,
        c.fresh,
        _,
        store_form e none absent ∙ ap (Option.map (λ c'. (c', c.fresh))) run,
        subst (λ i. Represents d (i ∷ fitting (pos_part c.max_bytes - e.size) is)) (sym shown) r,
        ap (λ (i : Item). i.name) shown,
        same,
      )

  store_old : (e : CacheEntry) (p : Ptr) → lookup e.name c.entries ≡ some p → Stored c e
  store_old e p found =
      let b = alloc c e in
      let rep' = alloc-Represents c e is rep in
      let found' = ap (lookup e.name) (alloc-entries c e) ∙ found in
      let (_, r, shown) = hit_lem b e.name p is rep' found' in
      let named = (rep'.repr.sound e.name p found').1 in
      (
        touch_locked b p,
        p,
        _,
        store_form e (some p) found,
        subst (λ i. Represents (touch_locked b p) (i ∷ remove e.name is)) (sym shown) r,
        ap (λ (i : Item). i.name) shown ∙ named,
        max-touch b p ∙ alloc-max c e,
      )

  store_lem : (e : CacheEntry) → exceeds e.size c.max_bytes ≡ false → Stored c e
  store_lem e small = elim (Option-cases (lookup e.name c.entries)) [
    | inl absent ↦ store_new e small absent
    | inr (p, found) ↦ store_old e p found
  ]

-- A state that the cache can be in.
pub record IsValid (max : ℤ) (c : LruCacheFs) : Type 0 where
  pub view : List Item
  pub rep : Represents c view
  pub limit : c.max_bytes ≡ max

Step-IsValid : (max : ℤ) (c d : LruCacheFs) → Step c d → IsValid max c → IsValid max d
Step-IsValid max c d (hit name p found) v =
    let (_, r, _) = hit_lem c name p v.view v.rep found in
    record { view = _; rep = r; limit = max-touch c p ∙ v.limit }
Step-IsValid max c d (store e p small run) v =
    let (d', p', js, run', r, _, same) = store_lem c v.view v.rep e small in
    let agree : d' ≡ d = ap (λ (x : LruCacheFs × Ptr). x.0) (some-injective _ _ (sym run' ∙ run)) in
    subst (IsValid max) agree (record { view = _; rep = r; limit = same ∙ v.limit })
Step-IsValid max c d (skip e) v = record {
  view = v.view;
  rep = alloc-Represents c e v.view v.rep;
  limit = alloc-max c e ∙ v.limit;
}

Reach-IsValid : (max : ℤ) (c : LruCacheFs) → Reach max c → IsValid max c
unfolding new_lru_cache_fs
Reach-IsValid max c start = record {
  view = [];
  rep = record { chain = []; repr = new-Repr max; view = refl };
  limit = refl;
}
Reach-IsValid max c (next {c = b} r s) = Step-IsValid max b c s (Reach-IsValid max b r)

-- However the threads interleave: the cache is well linked, and the bytes of the cached files are
-- counted right and within the limit, none if that is negative.
pub Reach-counted :
    (max : ℤ) (c : LruCacheFs)
    → Reach max c
    → (is : List Item) × Represents c is × (c.cur_bytes ≡ total is) × (total is ≤ pos_part max)
Reach-counted max c reach =
    let v = Reach-IsValid max c reach in
    let counted : c.cur_bytes ≡ total v.view = v.rep.repr.bytes ∙ ap total v.rep.view in
    let within : c.cur_bytes ≤ pos_part max =
      subst (λ z. c.cur_bytes ≤ pos_part z) v.limit v.rep.repr.within in
    (v.view, v.rep, counted, omega (arith, counted, within))

-- However the threads interleave: a thread that arrives at the lock with a file no larger than the
-- limit gets out of it, with an entry of that name which is now the most recent one.
pub Reach-Stored :
    (max : ℤ) (c : LruCacheFs) (e : CacheEntry)
    → Reach max c
    → exceeds e.size max ≡ false
    → Stored c e
Reach-Stored max c e reach small =
    let v = Reach-IsValid max c reach in
    store_lem c v.view v.rep e (ap (exceeds e.size) v.limit ∙ small)
