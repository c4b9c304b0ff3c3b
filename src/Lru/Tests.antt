-- ===== src/Lru/Tests.antt =====
-- Runs of the read cache on small filesystems, and the theorems at concrete caches.
use swim.Prelude.{
  ℕ, drop, ◌≤◌, ◌≡◌, refl, true, false, none, some, List, [], ◌∷◌, Text, text, text_eq, ◌==◌,
  Result, ok, err, if◌then◌else◌, arith, ℕ_discrete, Eq, sym, ap, ◌∙◌, nat_eq,
}
use swim.Prelude.Dict.{lookup, insert, lookup-insert_self}
use swim.Prelude.Int.{pos}
use swim.Lru.{
  LruCacheFs, CacheEntry, Item, new_lru_cache_fs, evict_locked, make_room, unlink, relink_prev,
  relink_next, alloc,
}
use swim.Lru.Repr.{Repr, new-Repr, total}
use swim.Lru.Room.{Roomy, make_room-Roomy}
use swim.Lru.Open.{File, BaseFile, open_file}
use swim.Lru.File.{CachedFile, opened_file, seek, seek_start, read_to_end, seek-read_to_end}
use swim.Lru.Recent.{recent_open}
use swim.Lru.Refine.{Represents}
use swim.Lru.Correct.{Agrees, open-recent_open}
use swim.Lru.Serve.{open_all}
use swim.Lru.Base.{AllAnswers, open_all-Answered}
use swim.Lru.Threads.{Reach, start, next, skip, Stored, Reach-counted, Reach-Stored}

-- Two files and a directory; nothing else is there.
abbrev plain : Text → BaseFile Text
plain contents = record {
  stat = ok (record { is_dir = false; mod_time = 7; mode = 420 });
  read_all = ok contents;
}

abbrev folder : BaseFile Text
folder = record {
  stat = ok (record { is_dir = true; mod_time = 7; mode = 493 });
  read_all = err (text "is a directory");
}

abbrev base_open : Text → Result Text (BaseFile Text)
base_open name =
    if name == text "a"
    then ok (plain (text "abc"))
    else if name == text "b"
    then ok (plain (text "bcde"))
    else if name == text "d"
    then ok folder
    else err (text "no such file")

abbrev names : List Text
names = text "a" ∷ text "b" ∷ text "a" ∷ text "d" ∷ text "x" ∷ []

open_all-Answered_example :
    (d : LruCacheFs) × (rs : List (Result Text (File Text))) × (open_all base_open
        (new_lru_cache_fs (pos 5))
        names
      ≡ some (d, rs))
    × AllAnswers base_open names rs
    × (d.cur_bytes ≤ 5)
open_all-Answered_example = open_all-Answered base_open (pos 5) names

empty-Represents : Represents (new_lru_cache_fs (pos 5)) []
empty-Represents = record { chain = []; repr = new-Repr (pos 5); view = refl }

open-recent_open_example :
    Agrees base_open
      (new_lru_cache_fs (pos 5))
      (open_file base_open (new_lru_cache_fs (pos 5)) (text "a"))
      (recent_open base_open (new_lru_cache_fs (pos 5)).max_bytes [] (text "a"))
open-recent_open_example =
    open-recent_open base_open (new_lru_cache_fs (pos 5)) [] empty-Represents (text "a")

abbrev entry : CacheEntry
entry = record {
  name = text "a";
  contents = text "abc";
  size = 3;
  mod_time = 7;
  mode = 420;
  prev = none;
  next = none;
}

-- One thread has read a file that it does not store.
skipped : Reach (pos 5) (alloc (new_lru_cache_fs (pos 5)) entry)
skipped = next start (skip entry)

Reach-counted_example :
    (is : List Item) × Represents (alloc (new_lru_cache_fs (pos 5)) entry) is
    × ((alloc (new_lru_cache_fs (pos 5)) entry).cur_bytes ≡ total is)
    × (total is ≤ 5)
Reach-counted_example = Reach-counted (pos 5) (alloc (new_lru_cache_fs (pos 5)) entry) skipped

Reach-Stored_example : Stored (alloc (new_lru_cache_fs (pos 5)) entry) entry
Reach-Stored_example =
    Reach-Stored (pos 5) (alloc (new_lru_cache_fs (pos 5)) entry) entry skipped refl

-- A cache of one file.
abbrev one : LruCacheFs
one = record {
  max_bytes = pos 5;
  cur_bytes = 3;
  heap = λ p. entry;
  fresh = 1;
  entries = (text "a", 0) ∷ [];
  head = some 0;
  tail = some 0;
}

single :
    {K V : Type 0} ⦃eq : Eq K⦄ (j k : K) (v w : V)
    → lookup j ((k, v) ∷ []) ≡ some w
    → (j ≡ k) × (w ≡ v)
unfolding lookup
single j k v w h = ground arith

one-Repr : Repr one (0 ∷ [])
unfolding lookup insert ℕ_discrete
one-Repr = record {
  head = refl;
  tail = refl;
  nodes = (refl, refl, tt);
  distinct = (refl, tt);
  sound = λ n p h. let (named, at) = single n (text "a") 0 p h in (rw at refl, sym named);
  complete =
      λ p m. let z : p ≡ 0 = ground arith in lookup-insert_self (text "a") 0 [] ∙ ap some (sym z);
  keys = (refl, tt);
  counted = refl;
  bytes = refl;
  within = omega arith;
  allocated = λ p m. ground arith;
}

make_room-Roomy_example :
    (c : LruCacheFs) × (qs : List ℕ) × (make_room 2 4 one ≡ some c) × Roomy 5 4 one (0 ∷ []) c qs
make_room-Roomy_example =
    make_room-Roomy 5 4 (omega arith) 2 one (0 ∷ []) (omega arith) refl one-Repr

-- The read of a file counts its bytes; the eviction takes them back.
evict_bytes : (evict_locked one 0).cur_bytes ≡ 0
unfolding evict_locked unlink relink_prev relink_next
evict_bytes = refl

abbrev item_b : Item
item_b = record { name = text "b"; contents = text "bcde"; size = 4; mod_time = 7; mode = 420 }

seek-read_to_end_example :
    (read_to_end 5 2 (opened_file item_b) ≡ some (text "bcde"))
    × ((at off : ℕ)
        → (f : CachedFile) × (seek
              (text "negative position")
              (pos off)
              seek_start
              (record { entry = item_b; offset = at })
            ≡ ok (f, off))
          × (read_to_end 5 2 f ≡ some (drop off (text "bcde"))))
seek-read_to_end_example = seek-read_to_end (text "negative position") 5 1 item_b (omega arith)
