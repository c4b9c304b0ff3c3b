-- ===== src/Lru.antt =====
-- modules/github_preview/lrucache.go: a read cache over a filesystem. The entries are objects
-- on a heap, linked both ways, and every assignment to a pointer of the source is one here.
-- nil is `none`; the source tests each pointer before it follows it, so nothing can fault.
-- Sizes are those of byte slices in memory, far below 2^63, and so are natural numbers.
-- `max_bytes` is an int64 of the configuration and may be negative.
pub mod Chain
pub mod Repr
pub mod Evict
pub mod Touch
pub mod Room
pub mod Open
pub mod Recent
pub mod Refine
pub mod Correct
pub mod Serve
pub mod Base
pub mod Threads
pub mod Add
pub mod File
mod Tests
use mathlib.Core.Option
use swim.Prelude.{
  ℕ, zero, suc, ◌+◌, ◌-◌, Bool, true, false, Option, none, some, Text, text_eq, ltb, is, nat_eq,
  if◌then◌else◌, ◌==◌, length, [],
}
use swim.Prelude.Dict.{Dict, lookup, insert, erase}
use swim.Prelude.Int.{ℤ, exceeds}

abbrev pub Ptr : Type 0
Ptr = ℕ

pub record CacheEntry : Type 0 where
  pub name : Text
  pub contents : Text
  pub size : ℕ
  pub mod_time : ℕ
  pub mode : ℕ
  pub prev : Option Ptr
  pub next : Option Ptr

-- What a file served from an entry shows: all of the entry but its links.
pub record Item : Type 0 where
  pub name : Text
  pub contents : Text
  pub size : ℕ
  pub mod_time : ℕ
  pub mode : ℕ

abbrev pub item : CacheEntry → Item
item e = record {
  name = e.name;
  contents = e.contents;
  size = e.size;
  mod_time = e.mod_time;
  mode = e.mode;
}

abbrev pub Heap : Type 0
Heap = Ptr → CacheEntry

-- `fresh` is the next address that no object has yet.
pub record LruCacheFs : Type 0 where
  pub entries : Dict Text Ptr
  pub max_bytes : ℤ
  pub cur_bytes : ℕ
  pub head : Option Ptr
  pub tail : Option Ptr
  pub heap : Heap
  pub fresh : Ptr

abbrev pub blank : CacheEntry
blank = record {
  name = [];
  contents = [];
  size = 0;
  mod_time = 0;
  mode = 0;
  prev = none;
  next = none;
}

unfoldable pub new_lru_cache_fs : ℤ → LruCacheFs
new_lru_cache_fs max_bytes = record {
  entries = [];
  max_bytes = max_bytes;
  cur_bytes = 0;
  head = none;
  tail = none;
  heap = λ _. blank;
  fresh = 0;
}

unfoldable pub set_prev : Ptr → Option Ptr → Heap → Heap
set_prev p v h q = if q == p then record (h q) { prev = v } else h q

unfoldable pub set_next : Ptr → Option Ptr → Heap → Heap
set_next p v h q = if q == p then record (h q) { next = v } else h q

-- `if p != nil { p.next = v }`
unfoldable pub relink_next : Option Ptr → Option Ptr → Heap → Heap
relink_next none v h = h
relink_next (some p) v h = set_next p v h

-- `if p != nil { p.prev = v }`
unfoldable pub relink_prev : Option Ptr → Option Ptr → Heap → Heap
relink_prev none v h = h
relink_prev (some p) v h = set_prev p v h

-- `if p != nil { x } else { y }`
abbrev pub if_live : Option Ptr → Option Ptr → Option Ptr → Option Ptr
if_live none x y = y
if_live (some _) x y = x

-- The writes by which `evictLocked` and `touchLocked` take an entry out of the list.
unfoldable pub unlink : Heap → Ptr → Heap
unlink h e = let h' = relink_next (h e).prev (h e).next h in relink_prev (h' e).next (h' e).prev h'

unfoldable pub evict_locked : LruCacheFs → Ptr → LruCacheFs
evict_locked c e =
    let h = c.heap in
    let h'' = unlink h e in
    record c {
      heap = h'';
      head = if_live (h e).prev c.head (h e).next;
      tail = if_live (h e).next c.tail (h e).prev;
      cur_bytes = c.cur_bytes - (h'' e).size;
      entries = erase (h'' e).name c.entries;
    }

-- The writes by which `addLocked` and `touchLocked` put an entry before the list's head.
unfoldable pub link_front : Heap → Ptr → Option Ptr → Heap
link_front h e head = relink_prev head (some e) (set_next e head (set_prev e none h))

-- The body of `touchLocked` behind its early return.
unfoldable pub move_to_front : LruCacheFs → Ptr → LruCacheFs
move_to_front c e =
    let h = c.heap in
    let h'' = unlink h e in
    record c {
      heap = link_front h'' e c.head;
      tail = if is c.tail e then (h'' e).prev else c.tail;
      head = some e;
    }

unfoldable pub touch_locked : LruCacheFs → Ptr → LruCacheFs
touch_locked c e = if is c.head e then c else move_to_front c e

-- The loop of `addLocked`, on fuel: it evicts the tail until `size` bytes more fit.
unfoldable pub make_room : ℕ → ℕ → LruCacheFs → Option LruCacheFs
make_room zero size c = none
make_room (suc fuel) size c = elim (exceeds (c.cur_bytes + size) c.max_bytes) [
  | true ↦ elim c.tail [ none ↦ some c | some t ↦ make_room fuel size (evict_locked c t) ]
  | false ↦ some c
]

-- `addLocked` behind its loop.
unfoldable pub push_front : LruCacheFs → Ptr → LruCacheFs
push_front c e = record c {
  entries = insert (c.heap e).name e c.entries;
  cur_bytes = c.cur_bytes + (c.heap e).size;
  heap = link_front c.heap e c.head;
  head = some e;
  tail = if_live c.tail c.tail (some e);
}

unfoldable pub add_locked : LruCacheFs → Ptr → Option LruCacheFs
add_locked c e =
    Option.map (λ c'. push_front c' e) (make_room (suc (length c.entries)) (c.heap e).size c)

-- `&cacheEntry{…}`
unfoldable pub alloc : LruCacheFs → CacheEntry → LruCacheFs
alloc c e = record c { heap = λ q. if q == c.fresh then e else c.heap q; fresh = suc c.fresh }
