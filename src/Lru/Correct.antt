-- ===== src/Lru/Correct.antt =====
-- `Open` on the heap does what the abstract cache does, for every state that can be reached.
use mathlib.Core.Option
use swim.Prelude.{
  arith, ◌≡◌, refl, ◌∙◌, ap, false, Option, none, some, List, Text, text_eq, Bool-cases,
  Option-cases, inl, inr, Result, ok, err,
}
use swim.Prelude.Dict.{lookup}
use swim.Prelude.Int.{exceeds}
use swim.Lru.{Item, item, CacheEntry, LruCacheFs, touch_locked, alloc}
use swim.Lru.Add.{heap-alloc, alloc-max, alloc-entries, alloc-items, alloc-Repr}
use swim.Lru.Open.{
  BaseFile, File, cached, Loaded, directory, file, serve, load, store_at, store_locked, keep,
  open_file,
}
use swim.Lru.Recent.{add, recent_keep, recent_open}
use swim.Lru.Refine.{Represents, hit_lem, miss_lem, add_lem, max-touch, exceeds-pos}

pub alloc-Represents :
    (c : LruCacheFs) (e : CacheEntry) (is : List Item) → Represents c is → Represents (alloc c e) is
alloc-Represents c e is rep = record {
  chain = rep.chain;
  repr = alloc-Repr c e rep.chain rep.repr;
  view = alloc-items c e rep.chain rep.repr ∙ rep.view;
}

module _ {E : Type 0} (base_open : Text → Result E (BaseFile E)) where
  -- A run of the heap's cache that ends as the abstract one does.
  abbrev pub Agrees :
      LruCacheFs → Option (LruCacheFs × Result E (File E)) → List Item × Result E (File E) → Type 0
  Agrees c run out =
      (d : LruCacheFs) × (run ≡ some (d, out.1)) × Represents d out.0 × (d.max_bytes ≡ c.max_bytes)

  pub load-name : (name : Text) (e : CacheEntry) → load base_open name ≡ ok (file e) → e.name ≡ name
  unfolding load
  load-name name e h = ground arith

  module _ (c : LruCacheFs) (is : List Item) (rep : Represents c is) where
    keep_small :
        (e : CacheEntry)
        → lookup e.name c.entries ≡ none
        → exceeds e.size c.max_bytes ≡ false
        → Agrees c
            (serve base_open (store_locked (alloc c e) c.fresh))
            (add c.max_bytes (item e) is, ok (cached (item e)))
    unfolding store_locked
    keep_small e absent small =
        let (m, max, fits) = exceeds-pos e.size c.max_bytes small in
        let (d, run, r, shown, same) = add_lem c e m max fits is rep absent in
        let missing : lookup ((alloc c e).heap c.fresh).name (alloc c e).entries ≡ none =
          ap (λ (x : CacheEntry). lookup x.name (alloc c e).entries) (heap-alloc c e)
          ∙ ap (lookup e.name) (alloc-entries c e)
          ∙ absent in
        (
          d,
          ap (λ o. serve base_open (store_at (alloc c e) c.fresh o)) missing
              ∙ ap (λ o. serve base_open (Option.map (λ c'. (c', c.fresh)) o)) run
              ∙ ap (λ i. some (d, ok (cached i))) shown,
          r,
          same,
        )

    keep-Agrees :
        (name : Text) (l : Result E Loaded)
        → ((e : CacheEntry) → l ≡ ok (file e) → lookup e.name c.entries ≡ none)
        → Agrees c (keep base_open c name l) (recent_keep base_open c.max_bytes is name l)
    unfolding keep recent_keep
    keep-Agrees name (err x) absent = (c, refl, rep, refl)
    keep-Agrees name (ok directory) absent = (c, refl, rep, refl)
    keep-Agrees name (ok (file e)) absent = elim (Bool-cases (exceeds e.size c.max_bytes)) [
      | inl large ↦ rw large (alloc c e, refl, alloc-Represents c e is rep, alloc-max c e)
      | inr small ↦ rw small (keep_small e (absent e refl) small)
    ]

    -- `Open` ends, and does to the list of items and returns what the abstract cache does.
    pub open-recent_open :
        (name : Text)
        → Agrees c (open_file base_open c name) (recent_open base_open c.max_bytes is name)
    unfolding open_file recent_open
    open-recent_open name = elim (Option-cases (lookup name c.entries)) [
      | inl miss ↦
          rw (miss, miss_lem c name is rep miss)
            (keep-Agrees name (load base_open name)
              (λ e l. ap (λ n. lookup n c.entries) (load-name name e l) ∙ miss))
      | inr (p, hit) ↦
          let (found, r, shown) = hit_lem c name p is rep hit in
          rw (hit, found)
            (
              touch_locked c p,
              ap (λ i. some (touch_locked c p, ok (cached i))) shown,
              r,
              max-touch c p,
            )
    ]
