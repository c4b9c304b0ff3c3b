-- ===== src/Lru/Base.antt =====
-- What lrucache.go's `Open` owes to the filesystem below it, said of that filesystem alone.
use swim.Prelude.{
  ◌≤◌, ◌≡◌, refl, Bool, true, false, some, List, [], ◌∷◌, Text, Result, ok, err, map, length,
}
use swim.Prelude.Int.{ℤ, pos_part}
use swim.Lru.{LruCacheFs, new_lru_cache_fs}
use swim.Lru.Open.{Info, BaseFile, File, cached, opened, load, reopen}
use swim.Lru.Serve.{direct, open_all, open_all-direct}

-- The answers to a name: an error of the base, of a file's Stat or of its reading; a directory
-- as the base opens it; a file with the contents, the time and the mode that the base has.
pub data Answers {E : Type 0} (base_open : Text → Result E (BaseFile E)) (name : Text)
    : Result E (File E) → Type 0 where
  missing : (x : E) → base_open name ≡ err x → Answers base_open name (err x)
  unknown :
      (f : BaseFile E) (x : E)
      → base_open name ≡ ok f
      → f.stat ≡ err x
      → Answers base_open name (err x)
  folder :
      (f : BaseFile E) (i : Info)
      → base_open name ≡ ok f
      → f.stat ≡ ok i
      → i.is_dir ≡ true
      → Answers base_open name (ok (opened f))
  unread :
      (f : BaseFile E) (i : Info) (x : E)
      → base_open name ≡ ok f
      → f.stat ≡ ok i
      → i.is_dir ≡ false
      → f.read_all ≡ err x
      → Answers base_open name (err x)
  whole :
      (f : BaseFile E) (i : Info) (t : Text)
      → base_open name ≡ ok f
      → f.stat ≡ ok i
      → i.is_dir ≡ false
      → f.read_all ≡ ok t
      → Answers base_open name (
          ok (
            cached (record {
              name = name;
              contents = t;
              size = length t;
              mod_time = i.mod_time;
              mode = i.mode;
            })))

-- One answer to each name, in order.
abbrev pub AllAnswers :
    {E : Type 0} → (Text → Result E (BaseFile E)) → List Text → List (Result E (File E)) → Type 0
AllAnswers base_open [] [] = Unit
AllAnswers base_open [] (r ∷ rs) = ⊥
AllAnswers base_open (name ∷ names) [] = ⊥
AllAnswers base_open (name ∷ names) (r ∷ rs) =
    Answers base_open name r × AllAnswers base_open names rs

module _ {E : Type 0} (base_open : Text → Result E (BaseFile E)) (name : Text) where
  read-Answers :
      (f : BaseFile E) (i : Info) (r : Result E Text)
      → base_open name ≡ ok f
      → f.stat ≡ ok i
      → i.is_dir ≡ false
      → f.read_all ≡ r
      → Answers base_open name (direct base_open name)
  unfolding load reopen
  read-Answers f i (ok t) opens known plain reads =
      rw (opens, known, plain, reads) (whole f i t opens known plain reads)
  read-Answers f i (err x) opens known plain reads =
      rw (opens, known, plain, reads) (unread f i x opens known plain reads)

  kind-Answers :
      (f : BaseFile E) (i : Info) (b : Bool)
      → base_open name ≡ ok f
      → f.stat ≡ ok i
      → i.is_dir ≡ b
      → Answers base_open name (direct base_open name)
  unfolding load reopen
  kind-Answers f i true opens known is_folder =
      rw (opens, known, is_folder, opens) (folder f i opens known is_folder)
  kind-Answers f i false opens known plain = read-Answers f i f.read_all opens known plain refl

  stat-Answers :
      (f : BaseFile E) (r : Result E Info)
      → base_open name ≡ ok f
      → f.stat ≡ r
      → Answers base_open name (direct base_open name)
  unfolding load reopen
  stat-Answers f (ok i) opens known = kind-Answers f i i.is_dir opens known refl
  stat-Answers f (err x) opens known = rw (opens, known) (unknown f x opens known)

  open-Answers :
      (r : Result E (BaseFile E))
      → base_open name ≡ r
      → Answers base_open name (direct base_open name)
  unfolding load reopen
  open-Answers (ok f) opens = stat-Answers f f.stat opens refl
  open-Answers (err x) opens = rw opens (missing x opens)

module _ {E : Type 0} (base_open : Text → Result E (BaseFile E)) where
  map-AllAnswers : (names : List Text) → AllAnswers base_open names (map (direct base_open) names)
  map-AllAnswers [] = tt
  map-AllAnswers (name ∷ names) =
      (open-Answers base_open name (base_open name) refl, map-AllAnswers names)

  -- Whatever files are opened through a new cache, in whatever order and however often: every call
  -- ends, and its answer is what the base filesystem says of the name. That is an error of its
  -- Open, of Stat or of the reading, a directory as it opens it, or else a file with the contents
  -- that are read, their length, and the time and the mode of Stat. The cached bytes do not exceed
  -- the limit, none if that is negative.
  pub open_all-Answered :
      (max : ℤ) (names : List Text)
      → (d : LruCacheFs) × (rs : List (Result E (File E))) × (open_all base_open
            (new_lru_cache_fs max)
            names
          ≡ some (d, rs))
        × AllAnswers base_open names rs
        × (d.cur_bytes ≤ pos_part max)
  open_all-Answered max names =
      let (d, run, within) = open_all-direct base_open max names in
      (d, map (direct base_open) names, run, map-AllAnswers names, within)
