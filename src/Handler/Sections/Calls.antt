-- ===== src/Handler/Sections/Calls.antt =====
-- The sections of each call: `resolveAndRegister`, `fullResolve`, `downloadAndCache`, `evictKey`
-- and `pruneOnce`, in the order in which handler.go enters them.
use swim.Prelude.{
  ℕ, zero, suc, Bool, true, false, not, Option, none, some, List, [], ◌∷◌, ◌++◌, ◌&&◌, Text, text,
  text_eq, nat_eq, ◌==◌, ltb, has_prefix, trim_prefix, Result, ok, err, if◌then◌else◌,
}
use swim.Prelude.Int.{ℤ, pos, negsuc}
use swim.Prelude.Dict.{Dict}
use swim.Prelude.Actions.{Action}
use swim.Cache.Metadata.{MetadataEntry, snapshot}
use swim.Cache.Artifact
use swim.Cache.Artifact.{ArtifactCache, stale_entries}
use swim.Config.{strconv_atoi}
use swim.Config.Decimal.{decimal}
use swim.Github.{GhPullRequest, ResolutionResult, exact_head}
use swim.Github.Client.{resolve_pr, resolve_branch, download_artifact, get_pr_state}
use swim.Lru.{new_lru_cache_fs}
use swim.Handler.{
  GithubPreview, Layered, State, reached, now, run_cleanups, register_fs, unregister_fs,
  metadata_get, metadata_set, metadata_touch, metadata_evict, artifact_get, artifact_evict,
  fs_key_prefix,
}
use swim.Handler.Resolve.{work_dir_or_root}
use swim.Handler.Sections.{
  Code, finish, section, trigger, look, change, transact, on_result, handle,
}

module _ {S Body Fs Handle : Type 0} (g : GithubPreview S Body Fs Handle) where
  abbrev pub W : Type 0
  W = State S Fs Handle

  abbrev pub failing : {A : Type 0} → Text → Code W A
  failing e = finish (err e)

  abbrev pub ask : {A B : Type 0} → Action S Text A → (A → Code W B) → Code W B
  ask m k = transact (λ w. reached g w (m w.outer)) (on_result k failing)

  unfoldable pub point_code : Text → ℕ → Text → Layered Fs → Code W (Layered Fs)
  point_code key artifact_id head_sha fs =
      change (metadata_set g key artifact_id head_sha)
        (change (register_fs g key fs) (finish (ok fs)))

  abbrev pub kept :
      W → Option (ArtifactCache (Layered Fs) (Handle × Text) × List (Handle × Text)) → Option W
  kept w none = none
  kept w (some (c, cleanups)) =
      some (record w { artifact_cache = c; outer = run_cleanups g cleanups w.outer })

  abbrev pub artifact_set : ℕ → Layered Fs → ℕ → Handle × Text → W → Option W
  artifact_set artifact_id layered size close w =
      kept w (Artifact.set w.artifact_cache (now g w) artifact_id layered size (some close))

  unfoldable pub keep_download_code : Text → ℕ → Text → Fs × ℕ × Handle × Text → Code W (Layered Fs)
  keep_download_code key artifact_id head_sha (raw_fs, size, f, path) =
      let layered : Layered Fs = record {
        base = g.base_path_fs raw_fs (work_dir_or_root g g.work_dir);
        cache = new_lru_cache_fs g.read_cache_size;
      } in
      section (artifact_set artifact_id layered size (f, path))
        (λ _. point_code key artifact_id head_sha layered)

  unfoldable pub download_code : Text → ℕ → Text → Text → Code W (Layered Fs)
  download_code key artifact_id expected_digest head_sha =
      ask
        (download_artifact g.remote g.disk g.client artifact_id g.max_artifact_size expected_digest)
        (keep_download_code key artifact_id head_sha)

  abbrev pub looked_up_code :
      {A : Type 0} → (Layered Fs → Code W A) → Code W A → Option (Layered Fs) → Code W A
  looked_up_code f miss (some fs) = f fs
  looked_up_code f miss none = miss

  unfoldable pub with_artifact_code :
      {A : Type 0} → ℕ → (Layered Fs → Code W A) → Code W A → Code W A
  with_artifact_code id f miss = transact (artifact_get g id) (looked_up_code f miss)

  unfoldable pub use_artifact_code : Text → ResolutionResult → Code W (Layered Fs)
  use_artifact_code key res =
      with_artifact_code res.artifact_id (point_code key res.artifact_id res.workflow_run.head_sha)
        (download_code key res.artifact_id res.artifact.digest res.workflow_run.head_sha)

  abbrev pub guarded_code : Text → ResolutionResult → Option MetadataEntry → Code W (Layered Fs)
  guarded_code key res none = use_artifact_code key res
  guarded_code key res (some meta) =
      if not (exact_head res) && ltb res.artifact_id meta.artifact_id
      then with_artifact_code meta.artifact_id (point_code key meta.artifact_id meta.head_sha)
          (use_artifact_code key res)
      else use_artifact_code key res

  unfoldable pub settle_code : Text → ResolutionResult → Code W (Layered Fs)
  settle_code key res = look (λ w. (metadata_get g key w).0) (guarded_code key res)

  abbrev pub evict_known_code : {A : Type 0} → Option MetadataEntry → Code W A → Code W A
  evict_known_code none c = c
  evict_known_code (some meta) c = change (artifact_evict g meta.artifact_id) c

  unfoldable pub forget_code : {A : Type 0} → Text → Code W A → Code W A
  forget_code key c = change (metadata_evict g key) (change (unregister_fs g key) c)

  unfoldable pub evict_key_code : {A : Type 0} → Text → Code W A → Code W A
  evict_key_code key c =
      look (λ w. (metadata_get g key w).0) (λ meta. evict_known_code meta (forget_code key c))

  abbrev pub if_open_code : Text → ℕ → ResolutionResult → Option GhPullRequest → Code W (Layered Fs)
  if_open_code key pr_num res none = section (λ _. none) (λ _. failing [])
  if_open_code key pr_num res (some pr) =
      if not (pr.state == text "open")
      then evict_key_code key (failing (text "PR #" ++ decimal pr_num ++ text " is " ++ pr.state))
      else settle_code key res

  abbrev pub resolve_number_code : Text → Text → Option ℕ → Code W (Layered Fs)
  resolve_number_code key pr_str none = failing (text "invalid PR number: " ++ pr_str)
  resolve_number_code key pr_str (some pr_num) =
      ask (resolve_pr g.remote g.disk g.client pr_num) (λ res. if_open_code key pr_num res res.pr)

  unfoldable pub full_resolve_code : Text → Code W (Layered Fs)
  full_resolve_code key =
      if has_prefix key (text "branch:")
      then ask (resolve_branch g.remote g.disk g.client (trim_prefix key (text "branch:")))
          (settle_code key)
      else let pr_str = trim_prefix key (text "pr:") in
        resolve_number_code key pr_str (strconv_atoi pr_str)

  abbrev pub named : Text → Code W Text
  named key = finish (ok (fs_key_prefix ++ key))

  abbrev pub fall_back_code : Text → Text → Option MetadataEntry → Code W Text
  fall_back_code key e none = failing e
  fall_back_code key e (some meta) =
      with_artifact_code meta.artifact_id
        (λ fs. change (metadata_touch g key) (change (register_fs g key fs) (named key)))
        (failing e)

  unfoldable pub resolve_now_code : Text → Code W Text
  resolve_now_code key =
      handle (full_resolve_code key) (λ _. named key)
        (λ e. look (λ w. (metadata_get g key w).0) (fall_back_code key e))

  abbrev pub by_freshness_code : Text → Option MetadataEntry × Bool → Code W Text
  by_freshness_code key (none, fresh) = resolve_now_code key
  by_freshness_code key (some meta, true) =
      with_artifact_code meta.artifact_id (λ _. named key)
        (handle (download_code key meta.artifact_id [] meta.head_sha) (λ _. named key) failing)
  by_freshness_code key (some meta, false) =
      if g.stale_while_revalidate
      then with_artifact_code meta.artifact_id (λ _. trigger key (named key)) (resolve_now_code key)
      else resolve_now_code key

  unfoldable pub resolve_and_register_code : Text → Code W Text
  resolve_and_register_code key = look (metadata_get g key) (by_freshness_code key)

  -- The turn of the pruner, with the code behind each part.
  module _ {A : Type 0} where
    abbrev pub prune_state_code : Text → MetadataEntry → Code W A → Result Text Text → Code W A
    prune_state_code key meta c (err e) = c
    prune_state_code key meta c (ok state) =
        if state == text "open"
        then c
        else change (artifact_evict g meta.artifact_id) (forget_code key c)

    abbrev pub prune_number_code : Text → MetadataEntry → Option ℕ → Code W A → Code W A
    prune_number_code key meta none c = c
    prune_number_code key meta (some pr_num) c =
        transact (λ w. reached g w (get_pr_state g.remote g.disk g.client pr_num w.outer))
          (prune_state_code key meta c)

    unfoldable pub prune_entry_code : Text → MetadataEntry → Code W A → Code W A
    prune_entry_code key meta c =
        if has_prefix key (text "pr:")
        then prune_number_code key meta (strconv_atoi (trim_prefix key (text "pr:"))) c
        else c

    unfoldable pub prune_closed_code : Dict Text MetadataEntry → Code W A → Code W A
    prune_closed_code [] c = c
    prune_closed_code ((key, meta) ∷ entries) c =
        prune_entry_code key meta (prune_closed_code entries c)

    unfoldable pub forget_pointing_code : ℕ → Dict Text MetadataEntry → Code W A → Code W A
    forget_pointing_code artifact_id [] c = c
    forget_pointing_code artifact_id ((key, meta) ∷ entries) c =
        let rest = forget_pointing_code artifact_id entries c in
        if meta.artifact_id == artifact_id then forget_code key rest else rest

    unfoldable pub prune_stale_code : Dict Text MetadataEntry → List ℕ → Code W A → Code W A
    prune_stale_code entries [] c = c
    prune_stale_code entries (artifact_id ∷ ids) c =
        change (artifact_evict g artifact_id)
          (forget_pointing_code artifact_id entries (prune_stale_code entries ids c))

    abbrev pub prune_by_age_code : ℤ → Dict Text MetadataEntry → Code W A → Code W A
    prune_by_age_code (pos (suc n)) entries c =
        look (λ w. stale_entries w.artifact_cache (now g w) (suc n))
          (λ ids. prune_stale_code entries ids c)
    prune_by_age_code (pos zero) entries c = c
    prune_by_age_code (negsuc n) entries c = c

    unfoldable pub prune_once_code : Code W A → Code W A
    prune_once_code c =
        look (λ w. snapshot w.metadata_cache)
          (λ entries. prune_closed_code entries (prune_by_age_code g.max_artifact_age entries c))
