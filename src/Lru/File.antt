-- ===== src/Lru/File.antt =====
-- Files that the read cache serves, and its other operations: `cachedFile`, `cachedFileInfo`, `Stat`,
-- `OpenFile` and the writes, which it refuses. A `bytes.Reader` is the bytes and an offset in them.
use swim.Prelude.{
  ℕ, zero, suc, ◌+◌, ◌-◌, ◌<◌, ◌≡◌, refl, sym, ap, ◌∙◌, arith, Bool, true, false, Option, none,
  some, [], ◌∷◌, ◌++◌, Text, text_eq, nat_eq, ◌==◌, ltb, leb, Result, ok, err, if◌then◌else◌,
  length, take, drop, take-drop, drop-drop, length-drop, drop-all, Bool-cases, inl, inr, leb→le,
}
use swim.Prelude.Dict.{lookup}
use swim.Prelude.Int.{ℤ, pos, negsuc, sub_ℕ}
use swim.Lru.{Ptr, Item, item, LruCacheFs}
use swim.Lru.Open.{BaseFile, File, open_file}

pub record CachedFile : Type 0 where
  pub entry : Item
  pub offset : ℕ

abbrev pub opened_file : Item → CachedFile
opened_file e = record { entry = e; offset = 0 }

-- What `Read` puts into a buffer of `n` bytes; `none` is io.EOF.
unfoldable pub read : ℕ → CachedFile → CachedFile × Option Text
read n f =
    if leb (length f.entry.contents) f.offset
    then (f, none)
    else let got = take n (drop f.offset f.entry.contents) in
      (record f { offset = f.offset + length got }, some got)

abbrev filled : ℕ → Text → Text × Bool
filled n got = (got, ltb (length got) n)

-- The bytes and whether there is io.EOF with them; an offset that is negative is an error.
unfoldable pub read_at : {E : Type 0} → E → ℕ → ℤ → CachedFile → Result E (Text × Bool)
read_at negative n (negsuc off) f = err negative
read_at negative n (pos off) f =
    if leb (length f.entry.contents) off
    then ok ([], true)
    else ok (filled n (take n (drop off f.entry.contents)))

-- `Seek` from the start, from the offset or from the end
pub data Whence : Type 0 where
  seek_start seek_current seek_end : Whence

abbrev plus : ℕ → ℤ → ℤ
plus a (pos b) = pos (a + b)
plus a (negsuc b) = sub_ℕ a (suc b)

abbrev from : Whence → CachedFile → ℕ
from seek_start f = 0
from seek_current f = f.offset
from seek_end f = length f.entry.contents

abbrev pub sought : {E : Type 0} → E → CachedFile → ℤ → Result E (CachedFile × ℕ)
sought negative f (negsuc a) = err negative
sought negative f (pos a) = ok (record f { offset = a }, a)

unfoldable pub seek : {E : Type 0} → E → ℤ → Whence → CachedFile → Result E (CachedFile × ℕ)
seek negative offset whence f = sought negative f (plus (from whence f) offset)

-- `os.FileInfo` of an entry; its name is the last part of the path, by package filepath.
pub record FileInfo : Type 0 where
  pub name : Text
  pub size : ℕ
  pub mode : ℕ
  pub mod_time : ℕ
  pub is_dir : Bool

module _ (base_name : Text → Text) where
  unfoldable pub cached_file_info : Item → FileInfo
  cached_file_info e = record {
    name = base_name e.name;
    size = e.size;
    mode = e.mode;
    mod_time = e.mod_time;
    is_dir = false;
  }

  abbrev pub stat_at :
      {E : Type 0} → LruCacheFs → Result E FileInfo → Option Ptr → Result E FileInfo
  stat_at c base (some e) = ok (cached_file_info (item (c.heap e)))
  stat_at c base none = base

  -- A file that is cached is not looked up in the base.
  unfoldable pub stat :
      {E : Type 0} → (Text → Result E FileInfo) → LruCacheFs → Text → Result E FileInfo
  unfolding cached_file_info
  stat base_stat c name = stat_at c (base_stat name) (lookup name c.entries)

-- Every flag but O_RDONLY, which is 0, is refused.
unfoldable pub open_file_flag :
    {E : Type 0}
    → (Text → Result E (BaseFile E))
    → E
    → LruCacheFs
    → Text
    → ℕ
    → Option (LruCacheFs × Result E (File E))
open_file_flag base_open read_only c name flag =
    if flag == 0 then open_file base_open c name else some (c, err read_only)

-- The writes of the file system and of a file
pub data Change : Type 0 where
  create mkdir mkdir_all remove remove_all chmod chown chtimes : Text → Change
  rename : Text → Text → Change
  write write_string : Text → Change
  write_at : Text → ℤ → Change
  truncate : ℤ → Change

unfoldable pub change : {E : Type 0} → E → LruCacheFs → Change → LruCacheFs × Result E Unit
change read_only c op = (c, err read_only)

-- A client that reads with buffers of `n` bytes until io.EOF, on fuel.
abbrev pub read_more : Text → Option Text → Option Text
read_more got none = none
read_more got (some rest) = some (got ++ rest)

abbrev read_on : (CachedFile → Option Text) → CachedFile × Option Text → Option Text
read_on rest (f, none) = some []
read_on rest (f, some got) = read_more got (rest f)

unfoldable pub read_to_end : ℕ → ℕ → CachedFile → Option Text
unfolding read
read_to_end zero n f = none
read_to_end (suc fuel) n f = let rest = read_to_end fuel n in read_on rest (read n f)

drop-take : (n : ℕ) (t : Text) → drop (length (take n t)) t ≡ drop n t
drop-take zero t = refl
drop-take (suc n) [] = refl
drop-take (suc n) (c ∷ t) = drop-take n t

-- A read that is not at the end takes what it yields off what is left.
read_step :
    (n offset : ℕ) (t : Text)
    → drop (offset + length (take n (drop offset t))) t ≡ drop n (drop offset t)
read_step n offset t =
    sym (drop-drop offset (length (take n (drop offset t))) t) ∙ drop-take n (drop offset t)

take_some : (n : ℕ) (t : Text) → 0 < length t → 0 < length (take (suc n) t)
take_some n [] some_byte = absurd (omega arith)
take_some n (c ∷ t) some_byte = omega arith

read-rest :
    (fuel n : ℕ) (f : CachedFile)
    → length f.entry.contents - f.offset < fuel
    → read_to_end fuel (suc n) f ≡ some (drop f.offset f.entry.contents)
unfolding read_to_end read
read-rest zero n f enough = absurd (omega arith)
read-rest (suc fuel) n f enough =
    let t = f.entry.contents in
    let got = take (suc n) (drop f.offset t) in
    elim (Bool-cases (leb (length t) f.offset)) [
      | inl end ↦ rw end (ap some (sym (drop-all f.offset t (leb→le _ _ end))))
      | inr more ↦
          let before : f.offset < length t = ground arith in
          let some_left : 0 < length (drop f.offset t) = omega (arith, length-drop f.offset t) in
          let some_got = take_some n (drop f.offset t) some_left in
          rw (more, read-rest fuel n (record f { offset = f.offset + length got }) (omega arith))
            (ap (λ r. some (got ++ r)) (read_step (suc n) f.offset t)
              ∙ ap some (take-drop (suc n) (drop f.offset t)))
    ]

module _ {E : Type 0} (negative : E) where
  -- A client that reads a cached file in buffers of any size but 0, in at most one read more than it
  -- has bytes, comes to the end: from where it was opened it has read the contents, and behind a seek
  -- to any offset, from any other place in the file, what the contents have from there on.
  pub seek-read_to_end :
      (fuel n : ℕ) (e : Item)
      → length e.contents < fuel
      → (read_to_end fuel (suc n) (opened_file e) ≡ some e.contents)
        × ((at off : ℕ)
            → (f : CachedFile) × (seek negative
                  (pos off)
                  seek_start
                  (record { entry = e; offset = at })
                ≡ ok (f, off))
              × (read_to_end fuel (suc n) f ≡ some (drop off e.contents)))
  unfolding seek
  seek-read_to_end fuel n e enough = (
    read-rest fuel n (opened_file e) (omega arith),
    λ at off.
        let same : 0 + off ≡ off = omega arith in
        (
          record { entry = e; offset = off },
          ap (λ a. ok (record { entry = e; offset = a }, a)) same,
          read-rest fuel n (record { entry = e; offset = off }) (omega arith),
        ),
  )
