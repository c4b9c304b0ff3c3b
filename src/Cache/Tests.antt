-- ===== src/Cache/Tests.antt =====
-- Runs of the two caches, and the theorems at concrete caches.

use mathlib.Core.List.{Perm}
use swim.Prelude.{
  ℕ, ◌≡◌, ◌≢◌, refl, true, false, none, some, List, [], ◌∷◌, Text, text, text_eq, ◌==◌,
  if◌then◌else◌, arith, ℕ_discrete, nat_eq,
}
use swim.Prelude.Dict.{lookup, erase, NodupKeys}
use swim.Prelude.Int.{pos, negsuc}
use swim.Cache.Metadata
use swim.Cache.Metadata.{MetadataCache, MetadataEntry}
use swim.Cache.Metadata.Laws.{refreshed, shown, get-writes}
use swim.Cache.Artifact
use swim.Cache.Artifact.{
  ArtifactCache, ArtifactEntry, cleanups_of, all_cleanups, evict_oldest_locked, make_room,
  stale_entries,
}
use swim.Cache.Artifact.Oldest.{Evicted, evict_oldest-Evicted}
use swim.Cache.Artifact.Room.{make_room-diverges}
use swim.Cache.Artifact.Laws.{Stored, new_entry, set-Stored, set_overwrites}

abbrev pull : Text
pull = text "pr:42"

abbrev branch : Text
branch = text "branch:main"

abbrev known : MetadataEntry
known = record { artifact_id = 9; head_sha = text "c0ffee"; resolved_at = 100 }

abbrev metadata : MetadataCache
metadata = record { entries = (pull, known) ∷ []; ttl = pos 50 }

one_key : NodupKeys metadata.entries
unfolding lookup
one_key = (refl, tt)

-- An entry is fresh up to its time to live, and stale behind it.
fresh_at_limit : (Metadata.get metadata 150 pull).1 ≡ true
unfolding Metadata.get lookup ℕ_discrete text_eq
fresh_at_limit = refl

stale_behind : (Metadata.get metadata 151 pull).1 ≡ false
unfolding Metadata.get lookup ℕ_discrete text_eq
stale_behind = refl

get-writes_example :
    (Metadata.get (Metadata.set metadata 200 branch 11 (text "f00d")) 240 pull ≡ (
      if pull == branch
      then shown 240
          (pos 50)
          (some (record { artifact_id = 11; head_sha = text "f00d"; resolved_at = 200 }))
      else Metadata.get metadata 240 pull))
    × (Metadata.get (Metadata.touch metadata 200 branch) 240 pull ≡ (
        if pull == branch
        then shown 240 (pos 50) (refreshed 200 (lookup branch metadata.entries))
        else Metadata.get metadata 240 pull))
    × (Metadata.get (Metadata.evict metadata branch).0 240 pull
        ≡ (if pull == branch then (none, false) else Metadata.get metadata 240 pull))
get-writes_example = get-writes metadata branch pull 11 (text "f00d") 200 240 one_key

-- An artifact's file system and its cleanup function, both as numbers.
abbrev artifact : ℕ → ℕ → ArtifactEntry ℕ ℕ
artifact id time = record { fs = id; size_bytes = 10; last_access = time; cleanup = some id }

abbrev artifacts : ArtifactCache ℕ ℕ
artifacts = record { entries = (1, artifact 1 30) ∷ (2, artifact 2 20) ∷ []; max_size = pos 2 }

artifacts-NodupKeys : NodupKeys artifacts.entries
unfolding lookup ℕ_discrete
artifacts-NodupKeys = (refl, (refl, tt))

not_empty : artifacts.entries ≢ []
not_empty e = ground arith

oldest_goes : (evict_oldest_locked artifacts).1 ≡ 2 ∷ []
unfolding evict_oldest_locked Artifact.scan_oldest lookup erase ℕ_discrete
oldest_goes = refl

evict_oldest-Evicted_example :
    Evicted artifacts (evict_oldest_locked artifacts).0 (evict_oldest_locked artifacts).1
evict_oldest-Evicted_example = evict_oldest-Evicted artifacts artifacts-NodupKeys not_empty

abbrev unbounded : ArtifactCache ℕ ℕ
unbounded = record { entries = []; max_size = negsuc 0 }

make_room-diverges_example : make_room 100 unbounded ≡ none
make_room-diverges_example = make_room-diverges 100 unbounded refl

set-Stored_example :
    (c : ArtifactCache ℕ ℕ) × (fs : List ℕ) × (Artifact.set artifacts 40 3 7 10 (some 3)
      ≡ some (c, fs))
    × Stored 1 3 (new_entry artifacts 40 3 7 10 (some 3)) artifacts c fs
set-Stored_example = set-Stored artifacts 40 3 7 10 (some 3) 1 refl artifacts-NodupKeys

abbrev roomy : ArtifactCache ℕ ℕ
roomy = record artifacts { max_size = pos 3 }

found : lookup 2 roomy.entries ≡ some (artifact 2 20)
unfolding lookup ℕ_discrete
found = refl

set_overwrites_example :
    (c : ArtifactCache ℕ ℕ) × (Artifact.set roomy 40 2 7 10 (some 5) ≡ some (c, []))
    × Perm (5 ∷ all_cleanups roomy.entries) (2 ∷ all_cleanups c.entries)
set_overwrites_example =
    set_overwrites roomy 40 2 7 10 (some 5) 2 (artifact 2 20) refl artifacts-NodupKeys (omega arith)
      found
