-- ===== src/Handler/Bounded.antt =====
-- The limit of the artifact cache is positive where the middleware starts, and stays so; and what
-- the client's `ResolvePR` has found has the pull request in it.
use swim.Prelude.{
  Bool, true, false, if◌then◌else◌, has, ◌∷◌, ℕ, suc, ◌≡◌, refl, Option, none, some, Text, text_eq,
  nat_eq,
}
use swim.Prelude.Int.{pos}
use swim.Prelude.Dict.{lookup, NodupKeys, insert-NodupKeys, erase-NodupKeys}
use swim.Prelude.Yields.{Yields, Yields-ok, Yields-any, and_then-Yields}
use swim.Cache.Metadata.{MetadataEntry}
use swim.Cache.Artifact
use swim.Cache.Artifact.{ArtifactCache, ArtifactEntry, get_found, evict_found}
use swim.Github.{GhPullRequest, ResolutionResult}
use swim.Github.Client.{resolve_pr}
use swim.Handler.{
  GithubPreview, Layered, State, now, artifact_get, artifact_evict, run_cleanups, evict_known,
  evict_key, metadata_get, unregister_fs, metadata_evict,
}
use swim.Handler.Resolve.{trigger_background_refresh}

module _ {S Body Fs Handle : Type 0} (g : GithubPreview S Body Fs Handle) where
  -- The limit of the artifact cache is positive, and its ids are distinct.
  abbrev pub Bounded : State S Fs Handle → Type 0
  Bounded w =
      (m : ℕ) × (w.artifact_cache.max_size ≡ pos (suc m)) × NodupKeys w.artifact_cache.entries

  get-Bounded :
      (id : ℕ) (w : State S Fs Handle) (o : Option (ArtifactEntry (Layered Fs) (Handle × Text)))
      → Bounded w
      → Bounded (record w { artifact_cache = (get_found w.artifact_cache (now g w) id o).0 })
  get-Bounded id w none k = k
  get-Bounded id w (some e) (m, max, keys) = (m, max, insert-NodupKeys id _ _ keys)

  pub artifact_get-Bounded :
      (id : ℕ) (w : State S Fs Handle) → Bounded w → Bounded (artifact_get g id w).0
  unfolding artifact_get Artifact.get
  artifact_get-Bounded id w k = get-Bounded id w (lookup id w.artifact_cache.entries) k

  evict_found-Bounded :
      (id : ℕ) (w : State S Fs Handle) (s : S)
      (o : Option (ArtifactEntry (Layered Fs) (Handle × Text)))
      → Bounded w
      → Bounded (record w { artifact_cache = (evict_found w.artifact_cache id o).0; outer = s })
  evict_found-Bounded id w s none k = k
  evict_found-Bounded id w s (some e) (m, max, keys) = (m, max, erase-NodupKeys id _ keys)

  pub artifact_evict-Bounded :
      (id : ℕ) (w : State S Fs Handle) → Bounded w → Bounded (artifact_evict g id w)
  unfolding artifact_evict Artifact.evict
  artifact_evict-Bounded id w k =
      evict_found-Bounded id w (run_cleanups g (Artifact.evict w.artifact_cache id).1 w.outer)
        (lookup id w.artifact_cache.entries) k

  pub evict_known-Bounded :
      (o : Option MetadataEntry) (w : State S Fs Handle) → Bounded w → Bounded (evict_known g o w)
  evict_known-Bounded none w k = k
  evict_known-Bounded (some meta) w k = artifact_evict-Bounded meta.artifact_id w k

  pub evict_key-Bounded :
      (key : Text) (w : State S Fs Handle) → Bounded w → Bounded (evict_key g key w)
  unfolding evict_key unregister_fs metadata_evict
  evict_key-Bounded key w k = evict_known-Bounded (metadata_get g key w).0 w k

  -- A pull request that is resolved is in the result.
  abbrev pub HasPull : ResolutionResult → Type 0
  HasPull res = (pr : GhPullRequest) × (res.pr ≡ some pr)

  pub resolve_pr-HasPull :
      (n : ℕ) (s : S) → Yields HasPull (resolve_pr g.remote g.disk g.client n s)
  unfolding resolve_pr
  resolve_pr-HasPull n s =
      and_then-Yields (λ _. Unit) HasPull _ _ (Yields-any _)
        (λ info v _.
          and_then-Yields (λ _. Unit) HasPull _ _ (Yields-any _)
            (λ (run, a) u _. Yields-ok HasPull _ u (info, refl)))

  pub trigger-Bounded :
      (key : Text) (w : State S Fs Handle)
      → Bounded w
      → Bounded (trigger_background_refresh g key w)
  unfolding trigger_background_refresh
  trigger-Bounded key w k = if_Bounded (has key w.refresh_active)
    where
      if_Bounded :
          (b : Bool)
          → Bounded (if b then w else record w { refresh_active = key ∷ w.refresh_active })
      if_Bounded true = k
      if_Bounded false = k
