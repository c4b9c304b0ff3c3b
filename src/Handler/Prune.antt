-- ===== src/Handler/Prune.antt =====
-- `pruneOnce`, one turn of `runPruner`, and `Cleanup`. Both walk a snapshot of the metadata, which
-- Go does in any order.
use swim.Prelude.{
  ℕ, zero, suc, Option, none, some, List, [], ◌∷◌, Text, text, text_eq, nat_eq, ◌==◌, has_prefix,
  trim_prefix, Result, ok, err, if◌then◌else◌,
}
use swim.Prelude.Int.{ℤ, pos, negsuc}
use swim.Prelude.Dict.{Dict}
use swim.Cache.Metadata.{MetadataEntry, snapshot}
use swim.Cache.Artifact.{stale_entries, cleanup_all}
use swim.Config.{strconv_atoi}
use swim.Github.Client.{get_pr_state}
use swim.Handler.{
  GithubPreview, State, reached, now, run_cleanups, unregister_fs, metadata_evict, artifact_evict,
}

module _ {S Body Fs Handle : Type 0} (g : GithubPreview S Body Fs Handle) where
  abbrev pub W : Type 0
  W = State S Fs Handle

  unfoldable pub forget : Text → W → W
  forget key w = unregister_fs g key (metadata_evict g key w)

  -- What a state of a pull request asks for; an error leaves the entry alone.
  abbrev pub prune_state : Text → MetadataEntry → W × Result Text Text → W
  prune_state key meta (w, err e) = w
  prune_state key meta (w, ok state) =
      if state == text "open" then w else forget key (artifact_evict g meta.artifact_id w)

  abbrev pub prune_number : Text → MetadataEntry → Option ℕ → W → W
  prune_number key meta none w = w
  prune_number key meta (some pr_num) w =
      prune_state key meta (reached g w (get_pr_state g.remote g.disk g.client pr_num w.outer))

  unfoldable pub prune_entry : Text → MetadataEntry → W → W
  prune_entry key meta w =
      if has_prefix key (text "pr:")
      then prune_number key meta (strconv_atoi (trim_prefix key (text "pr:"))) w
      else w

  unfoldable pub prune_closed : Dict Text MetadataEntry → W → W
  prune_closed [] w = w
  prune_closed ((key, meta) ∷ entries) w = prune_closed entries (prune_entry key meta w)

  unfoldable pub forget_pointing : ℕ → Dict Text MetadataEntry → W → W
  forget_pointing artifact_id [] w = w
  forget_pointing artifact_id ((key, meta) ∷ entries) w =
      forget_pointing artifact_id entries
        (if meta.artifact_id == artifact_id then forget key w else w)

  unfoldable pub prune_stale : Dict Text MetadataEntry → List ℕ → W → W
  unfolding forget_pointing
  prune_stale entries [] w = w
  prune_stale entries (artifact_id ∷ ids) w =
      prune_stale entries ids (forget_pointing artifact_id entries (artifact_evict g artifact_id w))

  -- An age that is not positive disables the second part.
  abbrev pub prune_by_age : ℤ → Dict Text MetadataEntry → W → W
  prune_by_age (pos (suc n)) entries w =
      prune_stale entries (stale_entries w.artifact_cache (now g w) (suc n)) w
  prune_by_age (pos zero) entries w = w
  prune_by_age (negsuc n) entries w = w

  unfoldable pub prune_once : W → W
  unfolding prune_closed prune_stale
  prune_once w =
      let entries = snapshot w.metadata_cache in
      prune_by_age g.max_artifact_age entries (prune_closed entries w)

  unfoldable pub unregister_all : Dict Text MetadataEntry → W → W
  unregister_all [] w = w
  unregister_all ((key, meta) ∷ entries) w = unregister_all entries (unregister_fs g key w)

  -- `Cleanup`, behind the wait for the refreshes that are in flight.
  unfoldable pub clean_up : W → W
  unfolding unregister_all
  clean_up w =
      let w' = unregister_all (snapshot w.metadata_cache) w in
      let (c, cleanups) = cleanup_all w'.artifact_cache in
      record w' { artifact_cache = c; outer = run_cleanups g cleanups w'.outer }
