-- ===== src/Handler/Debug.antt =====
-- `handleDebug` of debug.go: what the cache holds for a key. Times and durations stand in the answer
-- as numbers of nanoseconds, which Go prints.
use swim.Prelude.{
  ℕ, ◌+◌, ◌-◌, ◌%◌, ◌≤◌, ◌<◌, ◌≡◌, refl, arith, Bool, true, false, not, Option, none, some, [],
  Text, text, text_eq, ◌⊎◌, inl, inr,
}
use swim.Prelude.Int.{ℤ, pos, negsuc, exceeds}
use swim.Prelude.Dict.{lookup}
use swim.Cache.Metadata
use swim.Cache.Metadata.{MetadataEntry, with_freshness}
use swim.Config.Options.{Options}
use swim.Handler.{GithubPreview, State, metadata_get, now}

pub record DebugCache : Type 0 where
  pub status : Text
  pub artifact_id : ℕ
  pub head_sha : Text
  pub resolved_at : Option ℕ
  pub ttl_remaining : Option ℕ

pub record DebugConfig : Type 0 where
  pub repo : Text
  pub artifact_name : Text
  pub work_dir : Text
  pub metadata_ttl : ℤ

pub record DebugResponse : Type 0 where
  pub key : Text
  pub cache : DebugCache
  pub config : DebugConfig

-- What is left of a time to live, 0 where it has passed
abbrev pub remaining : ℤ → ℕ → ℕ
remaining (pos ttl) since = ttl - since
remaining (negsuc n) since = 0

-- `Truncate(time.Second)`
unfoldable pub truncate : ℕ → ℕ
truncate d = d - d % 1000000000

unfoldable pub debug_cache : ℤ → ℕ → Option MetadataEntry → Bool → DebugCache
unfolding truncate
debug_cache ttl clock none fresh = record {
  status = text "miss";
  artifact_id = 0;
  head_sha = [];
  resolved_at = none;
  ttl_remaining = none;
}
debug_cache ttl clock (some meta) true = record {
  status = text "hit";
  artifact_id = meta.artifact_id;
  head_sha = meta.head_sha;
  resolved_at = some meta.resolved_at;
  ttl_remaining = some (truncate (remaining ttl (clock - meta.resolved_at)));
}
debug_cache ttl clock (some meta) false = record {
  status = text "stale";
  artifact_id = meta.artifact_id;
  head_sha = meta.head_sha;
  resolved_at = some meta.resolved_at;
  ttl_remaining = some 0;
}

module _ {S Body Fs Handle : Type 0} (g : GithubPreview S Body Fs Handle) (options : Options) where
  unfoldable pub handle_debug : Text → State S Fs Handle → DebugResponse
  unfolding debug_cache
  handle_debug key w =
      let (meta, fresh) = metadata_get g key w in
      record {
        key = key;
        cache = debug_cache options.metadata_ttl (now g w) meta fresh;
        config = record {
          repo = options.repo;
          artifact_name = options.artifact_name;
          work_dir = options.work_dir;
          metadata_ttl = options.metadata_ttl;
        };
      }

  truncate_lem : (d : ℕ) → (truncate d ≤ d) × (d < truncate d + 1000000000)
  unfolding truncate
  truncate_lem d = (omega arith, omega arith)

  -- What is printed of an entry that is a hit: with its age it stays within the time to live, and
  -- less than a second of that is not printed.
  abbrev pub Within : ℤ → ℕ → DebugCache → Type 0
  Within ttl age c =
      (m : ℕ) × (r : ℕ) × (ttl ≡ pos m)
      × (c.ttl_remaining ≡ some r)
      × (r + age ≤ m)
      × (m < r + age + 1000000000)

  hit_lem :
      (ttl : ℤ) (clock : ℕ) (meta : MetadataEntry)
      → exceeds (clock - meta.resolved_at) ttl ≡ false
      → Within ttl (clock - meta.resolved_at) (debug_cache ttl clock (some meta) true)
  unfolding debug_cache
  hit_lem (negsuc n) clock meta fresh = absurd (cc)
  hit_lem (pos m) clock meta fresh =
      let age = clock - meta.resolved_at in
      let (below, above) = truncate_lem (m - age) in
      let old : age ≤ m = ground arith in
      (m, truncate (m - age), refl, refl, omega arith, omega arith)

  abbrev pub Shown : ℤ → ℕ → DebugCache → Type 0
  Shown ttl age c =
      ((c.status ≡ text "hit") × Within ttl age c)
      ⊎ ((c.status ≡ text "stale") × (exceeds age ttl ≡ true) × (c.ttl_remaining ≡ some 0))

  -- What `get` finds, as the page shows it
  abbrev shown : ℤ → ℕ → Option MetadataEntry × Bool → DebugCache
  shown ttl clock (meta, fresh) = debug_cache ttl clock meta fresh

  fresh_lem :
      (ttl : ℤ) (clock : ℕ) (meta : MetadataEntry) (stale : Bool)
      → exceeds (clock - meta.resolved_at) ttl ≡ stale
      → ((debug_cache ttl clock (some meta) (not stale)).artifact_id ≡ meta.artifact_id)
        × ((debug_cache ttl clock (some meta) (not stale)).head_sha ≡ meta.head_sha)
        × Shown ttl (clock - meta.resolved_at) (debug_cache ttl clock (some meta) (not stale))
  unfolding debug_cache
  fresh_lem ttl clock meta true is = (refl, refl, inr (refl, is, refl))
  fresh_lem ttl clock meta false is = (refl, refl, inl (refl, hit_lem ttl clock meta is))

  shown_lem :
      (ttl at : ℤ) (clock : ℕ) (meta : MetadataEntry) (o : Option MetadataEntry)
      → o ≡ some meta
      → at ≡ ttl
      → ((shown ttl clock (with_freshness clock at o)).artifact_id ≡ meta.artifact_id)
        × ((shown ttl clock (with_freshness clock at o)).head_sha ≡ meta.head_sha)
        × Shown ttl (clock - meta.resolved_at) (shown ttl clock (with_freshness clock at o))
  shown_lem ttl at clock meta o found same =
      rw (found, same) (fresh_lem ttl clock meta (exceeds (clock - meta.resolved_at) ttl) refl)

  -- Where the cache's time to live is the one configured, an entry that the page shows, with the age
  -- that it has by the cache's clock: it is a hit, and the time that is left, with the age, is within
  -- the time to live and less than a second short of it; or it is stale, its age is over the time to
  -- live, and no time is left. The artifact and its commit are the entry's.
  pub handle_debug-Shown :
      (key : Text) (w : State S Fs Handle) (meta : MetadataEntry)
      → lookup key w.metadata_cache.entries ≡ some meta
      → w.metadata_cache.ttl ≡ options.metadata_ttl
      → ((handle_debug key w).cache.artifact_id ≡ meta.artifact_id)
        × ((handle_debug key w).cache.head_sha ≡ meta.head_sha)
        × Shown options.metadata_ttl (now g w - meta.resolved_at) (handle_debug key w).cache
  unfolding handle_debug Metadata.get
  handle_debug-Shown key w meta found same =
      shown_lem options.metadata_ttl w.metadata_cache.ttl (now g w) meta
        (lookup key w.metadata_cache.entries) found same
