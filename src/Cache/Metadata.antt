-- ===== src/Cache/Metadata.antt =====
-- `MetadataCache` of cache.go: keys to resolved artifacts, with a time to live. Each method runs
-- under the lock. Times are nanoseconds of the monotonic clock; the current one is an argument.
pub mod Laws
use swim.Prelude.{ℕ, ◌-◌, [], Bool, true, false, not, Option, none, some, List, Text, text_eq}
use swim.Prelude.Dict.{Dict, lookup, insert, erase}
use swim.Prelude.Int.{ℤ, exceeds}

pub record MetadataEntry : Type 0 where
  pub artifact_id : ℕ
  pub head_sha : Text
  pub resolved_at : ℕ

abbrev pub is_stale : MetadataEntry → ℕ → ℤ → Bool
is_stale m now ttl = exceeds (now - m.resolved_at) ttl

pub record MetadataCache : Type 0 where
  pub entries : Dict Text MetadataEntry
  pub ttl : ℤ

unfoldable pub new_metadata_cache : ℤ → MetadataCache
new_metadata_cache ttl = record { entries = []; ttl = ttl }

abbrev pub with_freshness : ℕ → ℤ → Option MetadataEntry → Option MetadataEntry × Bool
with_freshness now ttl none = (none, false)
with_freshness now ttl (some e) = (some e, not (is_stale e now ttl))

-- The entry, and whether it is fresh.
unfoldable pub get : MetadataCache → ℕ → Text → Option MetadataEntry × Bool
get c now key = with_freshness now c.ttl (lookup key c.entries)

abbrev pub touch_found : MetadataCache → ℕ → Text → Option MetadataEntry → MetadataCache
touch_found c now key none = c
touch_found c now key (some e) = record c {
  entries = insert key (record e { resolved_at = now }) c.entries;
}

unfoldable pub touch : MetadataCache → ℕ → Text → MetadataCache
touch c now key = touch_found c now key (lookup key c.entries)

unfoldable pub set : MetadataCache → ℕ → Text → ℕ → Text → MetadataCache
set c now key artifact_id head_sha =
    let e : MetadataEntry = record {
      artifact_id = artifact_id;
      head_sha = head_sha;
      resolved_at = now;
    } in
    record c { entries = insert key e c.entries }

abbrev pub evict_found : MetadataCache → Text → Option MetadataEntry → MetadataCache × Bool
evict_found c key none = (c, false)
evict_found c key (some _) = (record c { entries = erase key c.entries }, true)

unfoldable pub evict : MetadataCache → Text → MetadataCache × Bool
evict c key = evict_found c key (lookup key c.entries)

-- The copy that pruning and reporting walk.
abbrev pub snapshot : MetadataCache → Dict Text MetadataEntry
snapshot c = c.entries
