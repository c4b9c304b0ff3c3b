-- ===== src/Handler.antt =====
-- modules/github_preview/handler.go: the middleware. What its methods change is a state: the two
-- caches, the file systems registered with Caddy under the middleware's prefix, the keys under
-- refresh, and the world outside. A call that panics or never returns is `none`.
pub mod Key
pub mod Resolve
pub mod Prune
pub mod Pruned
pub mod Serve
pub mod Api
pub mod Debug
pub mod Provision
pub mod Aligned
pub mod Registered
pub mod Outcomes
pub mod Available
pub mod Returns
pub mod Bounded
pub mod Sections
mod Tests
use swim.Prelude.{
  ℕ, Bool, true, false, Option, none, some, List, [], ◌∷◌, ◌++◌, Text, text, text_eq, Result, ok,
  err, if◌then◌else◌,
}
use swim.Prelude.Int.{ℤ}
use swim.Prelude.Dict.{Dict, lookup, insert, erase}
use swim.Prelude.Actions.{Action}
use swim.Archive.{Disk, cleanup}
use swim.Cache.Metadata
use swim.Cache.Metadata.{MetadataCache, MetadataEntry}
use swim.Cache.Artifact
use swim.Cache.Artifact.{ArtifactCache}
use swim.Github.Client.{Remote, Settings}
use swim.Lru.{LruCacheFs}

-- The settings, with what stands outside: the clock, afero's `NewBasePathFs` and the match of
-- the host's regular expression.
pub record GithubPreview (S Body Fs Handle : Type 0) : Type 0 where
  pub remote : Remote S Body
  pub disk : Disk S Fs Body Handle
  pub client : Settings
  pub clock : S → ℕ
  pub base_path_fs : Fs → Text → Fs
  pub find_submatch : Text → List Text
  pub work_dir : Text
  pub max_artifact_size : ℤ
  pub stale_while_revalidate : Bool
  pub max_artifact_age : ℤ
  pub read_cache_size : ℤ
  pub api_path : Text

-- A file system as it is when it is made: the base below the work directory, and the read cache.
pub record Layered (Fs : Type 0) : Type 0 where
  pub base : Fs
  pub cache : LruCacheFs

pub record State (S Fs Handle : Type 0) : Type 0 where
  pub metadata_cache : MetadataCache
  pub artifact_cache : ArtifactCache (Layered Fs) (Handle × Text)
  pub file_systems : Dict Text (Layered Fs)
  pub refresh_active : List Text
  pub outer : S

abbrev pub fs_key_prefix : Text
fs_key_prefix = text "github_preview:"

abbrev pub Call : Type 0 → Type 0 → Type 0
Call W A = W → Option (W × Result Text A)

module _ {W A : Type 0} where
  abbrev pub done : A → Call W A
  done a w = some (w, ok a)

  abbrev pub failed : Text → Call W A
  failed e w = some (w, err e)

unfoldable pub caught :
    {W A B : Type 0}
    → (A → Call W B)
    → (Text → Call W B)
    → Option (W × Result Text A)
    → Option (W × Result Text B)
caught f h none = none
caught f h (some (w, ok a)) = f a w
caught f h (some (w, err e)) = h e w

infixl 5 ◌>>=◌
abbrev pub ◌>>=◌ : {W A B : Type 0} → Call W A → (A → Call W B) → Call W B
(m >>= f) w = caught f failed (m w)

module _ {S Body Fs Handle : Type 0} (g : GithubPreview S Body Fs Handle) where
  abbrev pub reached :
      {A : Type 0} → State S Fs Handle → S × Result Text A → State S Fs Handle × Result Text A
  reached w (s, r) = (record w { outer = s }, r)

  unfoldable pub outside : {A : Type 0} → Action S Text A → Call (State S Fs Handle) A
  outside m w = some (reached w (m w.outer))

  abbrev pub now : State S Fs Handle → ℕ
  now w = g.clock w.outer

  unfoldable pub run_cleanups : List (Handle × Text) → S → S
  run_cleanups [] s = s
  run_cleanups (c ∷ cs) s = run_cleanups cs (cleanup g.disk c s)

  unfoldable pub register_fs : Text → Layered Fs → State S Fs Handle → State S Fs Handle
  register_fs key afs w = record w {
    file_systems = insert (fs_key_prefix ++ key) afs w.file_systems;
  }

  unfoldable pub unregister_fs : Text → State S Fs Handle → State S Fs Handle
  unregister_fs key w = record w { file_systems = erase (fs_key_prefix ++ key) w.file_systems }

  abbrev pub metadata_get : Text → State S Fs Handle → Option MetadataEntry × Bool
  metadata_get key w = Metadata.get w.metadata_cache (now w) key

  unfoldable pub metadata_set : Text → ℕ → Text → State S Fs Handle → State S Fs Handle
  metadata_set key artifact_id head_sha w = record w {
    metadata_cache = Metadata.set w.metadata_cache (now w) key artifact_id head_sha;
  }

  unfoldable pub metadata_touch : Text → State S Fs Handle → State S Fs Handle
  metadata_touch key w = record w { metadata_cache = Metadata.touch w.metadata_cache (now w) key }

  unfoldable pub metadata_evict : Text → State S Fs Handle → State S Fs Handle
  metadata_evict key w =
      let (c, _) = Metadata.evict w.metadata_cache key in record w { metadata_cache = c }

  unfoldable pub artifact_get : ℕ → State S Fs Handle → State S Fs Handle × Option (Layered Fs)
  artifact_get id w =
      let (c, found) = Artifact.get w.artifact_cache (now w) id in
      (record w { artifact_cache = c }, found)

  unfoldable pub artifact_evict : ℕ → State S Fs Handle → State S Fs Handle
  unfolding run_cleanups
  artifact_evict id w =
      let (c, cleanups, _) = Artifact.evict w.artifact_cache id in
      record w { artifact_cache = c; outer = run_cleanups cleanups w.outer }

  abbrev pub evict_known : Option MetadataEntry → State S Fs Handle → State S Fs Handle
  evict_known none w = w
  evict_known (some meta) w = artifact_evict meta.artifact_id w

  unfoldable pub evict_key : Text → State S Fs Handle → State S Fs Handle
  evict_key key w =
      let (meta, _) = metadata_get key w in
      unregister_fs key (metadata_evict key (evict_known meta w))
