-- ===== src/Lru/Open.antt =====
-- `Open` of lrucache.go, over a base filesystem. afero is a third-party package: `base_open` is
-- its `Open`, with the file's `Stat` and what `io.ReadAll` makes of it, each of which can fail.
use mathlib.Core.Option
use swim.Prelude.{
  ℕ, Bool, Option, none, some, Text, text_eq, Result, ok, err, ◌>>=◌, length, if◌then◌else◌,
}
use swim.Prelude.Dict.{lookup}
use swim.Prelude.Int.{exceeds}
use swim.Lru.{Ptr, CacheEntry, Item, item, LruCacheFs, touch_locked, add_locked, alloc}

pub record Info : Type 0 where
  pub is_dir : Bool
  pub mod_time : ℕ
  pub mode : ℕ

pub record BaseFile (E : Type 0) : Type 0 where
  pub stat : Result E Info
  pub read_all : Result E Text

-- A file backed by an entry shows the entry's item; its links are never read.
pub data File (E : Type 0) : Type 0 where
  cached : Item → File E
  opened : BaseFile E → File E

abbrev pub new_cached_file : {E : Type 0} → CacheEntry → File E
new_cached_file e = cached (item e)

-- What `Open` reads from the base on a miss: a directory is left to the base, a file is read
-- whole.
pub data Loaded : Type 0 where
  directory : Loaded
  file : CacheEntry → Loaded

-- The section under the lock behind a read: a file that another thread has cached meanwhile is
-- served from there, any other is added.
abbrev pub store_at : LruCacheFs → Ptr → Option Ptr → Option (LruCacheFs × Ptr)
store_at c e (some existing) = some (touch_locked c existing, existing)
store_at c e none = Option.map (λ c'. (c', e)) (add_locked c e)

unfoldable pub store_locked : LruCacheFs → Ptr → Option (LruCacheFs × Ptr)
store_locked c e = store_at c e (lookup (c.heap e).name c.entries)

module _ {E : Type 0} (base_open : Text → Result E (BaseFile E)) where
  unfoldable pub load : Text → Result E Loaded
  load name = do
    f ← base_open name
    info ← f.stat
    if info.is_dir then ok directory else do
      contents ← f.read_all
      ok (
          file (record {
            name = name;
            contents = contents;
            size = length contents;
            mod_time = info.mod_time;
            mode = info.mode;
            prev = none;
            next = none;
          }))

  abbrev pub serve : Option (LruCacheFs × Ptr) → Option (LruCacheFs × Result E (File E))
  serve none = none
  serve (some (c, e)) = some (c, ok (new_cached_file (c.heap e)))

  unfoldable pub reopen : Text → Result E (File E)
  reopen name = do f ← base_open name; ok (opened f)

  -- The part of `Open` behind the read.
  unfoldable pub keep :
      LruCacheFs → Text → Result E Loaded → Option (LruCacheFs × Result E (File E))
  unfolding store_locked reopen
  keep c name (err x) = some (c, err x)
  keep c name (ok directory) = some (c, reopen name)
  keep c name (ok (file e)) =
      let c' = alloc c e in
      if exceeds e.size c.max_bytes
      then some (c', ok (new_cached_file e))
      else serve (store_locked c' c.fresh)

  abbrev pub open_at : LruCacheFs → Text → Option Ptr → Option (LruCacheFs × Result E (File E))
  open_at c name (some e) = serve (some (touch_locked c e, e))
  open_at c name none = keep c name (load name)

  -- `none` stands for a loop that does not end.
  unfoldable pub open_file : LruCacheFs → Text → Option (LruCacheFs × Result E (File E))
  unfolding load keep
  open_file c name = open_at c name (lookup name c.entries)
