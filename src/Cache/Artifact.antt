-- ===== src/Cache/Artifact.antt =====
-- `ArtifactCache` of cache.go: downloaded artifacts by id, the least recently used one evicted
-- first. A cleanup function is a value; a method that runs some returns them in order.
pub mod Oldest
pub mod Room
pub mod Laws
use mathlib.Core.Option
use swim.Prelude.{
  ℕ, zero, suc, ◌+◌, ◌-◌, Bool, true, false, not, Option, none, some, List, [], ◌∷◌, ◌++◌, nat_eq,
  ltb, ◌||◌, ◌&&◌, if◌then◌else◌, length,
}
use swim.Prelude.Dict.{Dict, lookup, insert, erase}
use swim.Prelude.Int.{ℤ, reaches}

-- `cleanup` may be nil.
pub record ArtifactEntry (F C : Type 0) : Type 0 where
  pub fs : F
  pub size_bytes : ℕ
  pub last_access : ℕ
  pub cleanup : Option C

pub record ArtifactCache (F C : Type 0) : Type 0 where
  pub entries : Dict ℕ (ArtifactEntry F C)
  pub max_size : ℤ

-- The cleanup functions that are not nil.
abbrev pub cleanups_of : {C : Type 0} → Option C → List C
cleanups_of none = []
cleanups_of (some f) = f ∷ []

abbrev pub entry_cleanups : {F C : Type 0} → Option (ArtifactEntry F C) → List C
entry_cleanups none = []
entry_cleanups (some e) = cleanups_of e.cleanup

module _ {F C : Type 0} where
  unfoldable pub new_artifact_cache : ℤ → ArtifactCache F C
  new_artifact_cache max_size = record { entries = []; max_size = max_size }

  abbrev pub get_found :
      ArtifactCache F C → ℕ → ℕ → Option (ArtifactEntry F C) → ArtifactCache F C × Option F
  get_found c now id none = (c, none)
  get_found c now id (some e) =
      (record c { entries = insert id (record e { last_access = now }) c.entries }, some e.fs)

  unfoldable pub get : ArtifactCache F C → ℕ → ℕ → ArtifactCache F C × Option F
  get c now id = get_found c now id (lookup id c.entries)

  -- The loop of `evictOldestLocked`, with its variables `first`, `oldestID` and `oldestTime`.
  unfoldable pub scan_oldest : Dict ℕ (ArtifactEntry F C) → Bool → ℕ → ℕ → Bool × ℕ
  scan_oldest [] first oldest_id oldest_time = (first, oldest_id)
  scan_oldest ((id, e) ∷ d) first oldest_id oldest_time =
      let older = first || ltb e.last_access oldest_time in
      scan_oldest d (first && not older) (if older then id else oldest_id)
        (if older then e.last_access else oldest_time)

  abbrev pub evict_picked : ArtifactCache F C → Bool → ℕ → ArtifactCache F C × List C
  evict_picked c true id = (c, [])
  evict_picked c false id =
      (record c { entries = erase id c.entries }, entry_cleanups (lookup id c.entries))

  unfoldable pub evict_oldest_locked : ArtifactCache F C → ArtifactCache F C × List C
  unfolding scan_oldest
  evict_oldest_locked c =
      let (first, oldest_id) = scan_oldest c.entries true 0 0 in evict_picked c first oldest_id

  abbrev pub prepend :
      List C → Option (ArtifactCache F C × List C) → Option (ArtifactCache F C × List C)
  prepend fs none = none
  prepend fs (some (c, gs)) = some (c, fs ++ gs)

  -- The loop of `set`, on fuel: it evicts until there is room for one entry more.
  unfoldable pub make_room : ℕ → ArtifactCache F C → Option (ArtifactCache F C × List C)
  make_room zero c = none
  make_room (suc fuel) c = elim (reaches (length c.entries) c.max_size) [
    | false ↦ some (c, [])
    | true ↦ let (c', fs) = evict_oldest_locked c in prepend fs (make_room fuel c')
  ]

  abbrev pub store_entry : ℕ → ArtifactEntry F C → ArtifactCache F C → ArtifactCache F C
  store_entry id e c = record c { entries = insert id e c.entries }

  unfoldable pub set :
      ArtifactCache F C → ℕ → ℕ → F → ℕ → Option C → Option (ArtifactCache F C × List C)
  set c now id fs size_bytes cleanup =
      let e : ArtifactEntry F C = record {
        fs = fs;
        size_bytes = size_bytes;
        last_access = now;
        cleanup = cleanup;
      } in
      Option.map (λ (c', cleanups). (store_entry id e c', cleanups))
        (make_room (suc (length c.entries)) c)

  abbrev pub evict_found :
      ArtifactCache F C → ℕ → Option (ArtifactEntry F C) → ArtifactCache F C × List C × Bool
  evict_found c id none = (c, [], false)
  evict_found c id (some e) =
      (record c { entries = erase id c.entries }, cleanups_of e.cleanup, true)

  unfoldable pub evict : ArtifactCache F C → ℕ → ArtifactCache F C × List C × Bool
  evict c id = evict_found c id (lookup id c.entries)

  unfoldable pub all_cleanups : Dict ℕ (ArtifactEntry F C) → List C
  all_cleanups [] = []
  all_cleanups ((id, e) ∷ d) = cleanups_of e.cleanup ++ all_cleanups d

  unfoldable pub cleanup_all : ArtifactCache F C → ArtifactCache F C × List C
  unfolding all_cleanups
  cleanup_all c = (record c { entries = [] }, all_cleanups c.entries)

  -- `e.lastAccess.Before(now - maxAge)`, for a positive age.
  unfoldable pub stale_from : ℕ → ℕ → Dict ℕ (ArtifactEntry F C) → List ℕ
  stale_from now max_age [] = []
  stale_from now max_age ((id, e) ∷ d) =
      let rest = stale_from now max_age d in
      if ltb (e.last_access + max_age) now then id ∷ rest else rest

  abbrev pub stale_entries : ArtifactCache F C → ℕ → ℕ → List ℕ
  stale_entries c now max_age = stale_from now max_age c.entries

  unfoldable pub total_bytes : Dict ℕ (ArtifactEntry F C) → ℕ
  total_bytes [] = 0
  total_bytes ((id, e) ∷ d) = e.size_bytes + total_bytes d

  unfoldable pub stats : ArtifactCache F C → ℕ × ℕ
  unfolding total_bytes
  stats c = (length c.entries, total_bytes c.entries)
