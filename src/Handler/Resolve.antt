-- ===== src/Handler/Resolve.antt =====
-- `resolveAndRegister`, `fullResolve`, `downloadAndCache` and the background refresh.
-- `singleflight` gives the callers that wait for one key the result of one call, so a caller's own
-- run is the call of `fullResolve`.
use swim.Prelude.{
  ℕ, Bool, true, false, not, Option, none, some, List, [], ◌∷◌, ◌++◌, ◌&&◌, Text, text, text_eq,
  ◌==◌, has, is_empty, ltb, has_prefix, trim_prefix, Result, ok, err, if◌then◌else◌,
}
use swim.Cache.Metadata.{MetadataEntry}
use swim.Cache.Artifact
use swim.Cache.Artifact.{ArtifactCache}
use swim.Config.{strconv_atoi}
use swim.Config.Decimal.{decimal}
use swim.Github.{GhPullRequest, ResolutionResult, exact_head}
use swim.Github.Client.{resolve_pr, resolve_branch, download_artifact}
use swim.Lru.{new_lru_cache_fs}
use swim.Handler.{
  GithubPreview, Layered, State, Call, done, failed, caught, ◌>>=◌, outside, now, run_cleanups,
  register_fs, metadata_get, metadata_set, metadata_touch, artifact_get, evict_key, fs_key_prefix,
}

module _ {S Body Fs Handle : Type 0} (g : GithubPreview S Body Fs Handle) where
  abbrev pub W : Type 0
  W = State S Fs Handle

  -- The artifact is known and cached: the key points to it, and its file system is registered.
  unfoldable pub point : Text → ℕ → Text → Layered Fs → W → W
  point key artifact_id head_sha fs w =
      register_fs g key fs (metadata_set g key artifact_id head_sha w)

  abbrev pub cached :
      Text
      → ℕ
      → Text
      → Layered Fs
      → W
      → Option (ArtifactCache (Layered Fs) (Handle × Text) × List (Handle × Text))
      → Option (W × Result Text (Layered Fs))
  cached key artifact_id head_sha fs w none = none
  cached key artifact_id head_sha fs w (some (c, cleanups)) =
      let w' : W = record w { artifact_cache = c; outer = run_cleanups g cleanups w.outer } in
      some (point key artifact_id head_sha fs w', ok fs)

  abbrev pub work_dir_or_root : Text → Text
  work_dir_or_root wd = if is_empty wd then text "/" else wd

  unfoldable pub keep_download : Text → ℕ → Text → Fs × ℕ × Handle × Text → Call W (Layered Fs)
  keep_download key artifact_id head_sha (raw_fs, size, f, path) w =
      let layered : Layered Fs = record {
        base = g.base_path_fs raw_fs (work_dir_or_root g.work_dir);
        cache = new_lru_cache_fs g.read_cache_size;
      } in
      cached key artifact_id head_sha layered w
        (Artifact.set w.artifact_cache (now g w) artifact_id layered size (some (f, path)))

  unfoldable pub download_and_cache : Text → ℕ → Text → Text → Call W (Layered Fs)
  download_and_cache key artifact_id expected_digest head_sha = do
    got ←
        outside g (
          download_artifact g.remote g.disk g.client artifact_id g.max_artifact_size
            expected_digest)
    keep_download key artifact_id head_sha got

  -- What is looked up in the artifact cache, with what is done then: found, or not.
  abbrev pub looked_up :
      {A : Type 0}
      → (Layered Fs → Call W A)
      → Call W A
      → W × Option (Layered Fs)
      → Option (W × Result Text A)
  looked_up f miss (w, some fs) = f fs w
  looked_up f miss (w, none) = miss w

  unfoldable pub with_artifact : {A : Type 0} → ℕ → (Layered Fs → Call W A) → Call W A → Call W A
  with_artifact id f miss w = looked_up f miss (artifact_get g id w)

  abbrev pub serve_cached : Text → ℕ → Text → Layered Fs → Call W (Layered Fs)
  serve_cached key artifact_id head_sha fs w = some (point key artifact_id head_sha fs w, ok fs)

  unfoldable pub use_artifact : Text → ResolutionResult → Call W (Layered Fs)
  use_artifact key res =
      with_artifact res.artifact_id (serve_cached key res.artifact_id res.workflow_run.head_sha)
        (download_and_cache key res.artifact_id res.artifact.digest res.workflow_run.head_sha)

  -- The guard against a stale listing of runs.
  abbrev pub guarded : Text → ResolutionResult → Option MetadataEntry → Call W (Layered Fs)
  guarded key res none = use_artifact key res
  guarded key res (some meta) =
      if not (exact_head res) && ltb res.artifact_id meta.artifact_id
      then with_artifact meta.artifact_id (serve_cached key meta.artifact_id meta.head_sha)
          (use_artifact key res)
      else use_artifact key res

  unfoldable pub settle : Text → ResolutionResult → Call W (Layered Fs)
  settle key res w = let (meta, _) = metadata_get g key w in guarded key res meta w

  -- A pull request that is not open is evicted.
  abbrev pub if_open : Text → ℕ → ResolutionResult → Option GhPullRequest → Call W (Layered Fs)
  if_open key pr_num res none w = none
  if_open key pr_num res (some pr) w =
      if not (pr.state == text "open")
      then some (evict_key g key w, err (text "PR #" ++ decimal pr_num ++ text " is " ++ pr.state))
      else settle key res w

  abbrev pub resolve_number : Text → Text → Option ℕ → Call W (Layered Fs)
  resolve_number key pr_str none = failed (text "invalid PR number: " ++ pr_str)
  resolve_number key pr_str (some pr_num) = do
    res ← outside g (resolve_pr g.remote g.disk g.client pr_num)
    if_open key pr_num res res.pr

  unfoldable pub full_resolve : Text → Call W (Layered Fs)
  full_resolve key =
      if has_prefix key (text "branch:")
      then outside g (resolve_branch g.remote g.disk g.client (trim_prefix key (text "branch:")))
        >>= settle key
      else let pr_str = trim_prefix key (text "pr:") in
        resolve_number key pr_str (strconv_atoi pr_str)

  -- A key is refreshed by one goroutine at a time, which `background_refresh` is.
  unfoldable pub trigger_background_refresh : Text → W → W
  trigger_background_refresh key w =
      if has key w.refresh_active then w else record w { refresh_active = key ∷ w.refresh_active }

  unfoldable pub without : Text → List Text → List Text
  without key [] = []
  without key (k ∷ ks) = let rest = without key ks in if k == key then rest else k ∷ rest

  abbrev pub refreshed : Text → Option (W × Result Text (Layered Fs)) → Option W
  refreshed key none = none
  refreshed key (some (w, _)) = some (record w { refresh_active = without key w.refresh_active })

  unfoldable pub background_refresh : Text → W → Option W
  background_refresh key w = refreshed key (full_resolve key w)

  -- A failed resolution falls back on the last good artifact.
  abbrev pub fall_back : Text → Text → Option MetadataEntry → Call W Text
  fall_back key e none = failed e
  fall_back key e (some meta) =
      with_artifact meta.artifact_id
        (λ fs w. some (register_fs g key fs (metadata_touch g key w), ok (fs_key_prefix ++ key)))
        (failed e)

  unfoldable pub resolve_now : Text → Call W Text
  resolve_now key w =
      caught (λ _. done (fs_key_prefix ++ key))
        (λ e w'. let (meta, _) = metadata_get g key w' in fall_back key e meta w')
        (full_resolve key w)

  abbrev pub by_freshness : Text → Option MetadataEntry → Bool → Call W Text
  by_freshness key none fresh = resolve_now key
  by_freshness key (some meta) true =
      with_artifact meta.artifact_id (λ _. done (fs_key_prefix ++ key))
        (download_and_cache key meta.artifact_id [] meta.head_sha
          >>= (λ _. done (fs_key_prefix ++ key)))
  by_freshness key (some meta) false =
      if g.stale_while_revalidate
      then with_artifact meta.artifact_id
          (λ _ w. some (trigger_background_refresh key w, ok (fs_key_prefix ++ key)))
          (resolve_now key)
      else resolve_now key

  unfoldable pub resolve_and_register : Text → Call W Text
  resolve_and_register key w =
      let (meta, fresh) = metadata_get g key w in by_freshness key meta fresh w
