-- ===== src/Handler/Sections/Lost.antt =====
-- `evictKey` takes out the metadata of a key before it unregisters the file system, and holds no lock
-- over both.
use swim.Prelude.{
  sym, ℕ, ◌≡◌, ap, ◌∙◌, subst, Bool, true, Option, none, some, List, [], ◌∷◌, ◌++◌, Text, text,
  text_eq, nat_eq, has_prefix, trim_prefix, ok,
}
use swim.Prelude.Int.{pos}
use swim.Prelude.Dict.{lookup}
use swim.Cache.Metadata
use swim.Cache.Metadata.{MetadataCache, MetadataEntry, with_freshness}
use swim.Cache.Artifact.{ArtifactEntry}
use swim.Github.{ResolutionResult}
use swim.Github.Client.{resolve_branch}
use swim.Handler.{
  GithubPreview, Layered, State, now, artifact_get, metadata_get, metadata_set, register_fs,
}
use swim.Handler.Sections.{Code, finish, handle, change}
use swim.Handler.Sections.Calls.{named, resolve_and_register_code}
use swim.Handler.Sections.Entries.{request, code_of}
use swim.Handler.Sections.Pool.{Nothing, Thread, Reach, idle, next}
use swim.Handler.Registered.{fs_name}
use swim.Prelude.Dict.{NodupKeys, insert-NodupKeys, lookup-erase_self}
use swim.Cache.Metadata.{evict_found}
use swim.Handler.{metadata_evict, unregister_fs, fs_key_prefix}
use swim.Handler.Resolve.{resolve_and_register}
use swim.Handler.Sections.Calls.{evict_key_code, evict_known_code, forget_code}
use swim.Handler.Sections.Entries.{evict}
use swim.Handler.Sections.Pool.{ends}
use swim.Handler.Sections.Alone.{resolve_and_register-whole}
use swim.Handler.Sections.{alone}
use swim.Handler.Sections.Runs.{
  Runs, Runs-trans, Runs-handle, Runs-look, Runs-change, Reach-Runs, Runs-whole,
}
use swim.Handler.Sections.Race.{
  artifact_get-Alike, metadata_get-none, metadata_get-set, fresh-Runs, request-Runs, pointing-Runs,
  finishing, answered,
}

module _ {S Body Fs Handle : Type 0} (g : GithubPreview S Body Fs Handle) (key : Text) where
  abbrev W : Type 0
  W = State S Fs Handle

  metadata_evict-absent :
      (w : W) → lookup key w.metadata_cache.entries ≡ none → metadata_evict g key w ≡ w
  unfolding metadata_evict Metadata.evict
  metadata_evict-absent w absent =
      ap (λ o. record w { metadata_cache = (evict_found w.metadata_cache key o).0 }) absent

  abbrev unregistering : Code W Text
  unregistering = change (unregister_fs g key) (finish (ok []))

  -- An eviction of a key without metadata, up to where it unregisters.
  evict-Runs :
      (w : W)
      → lookup key w.metadata_cache.entries ≡ none
      → Runs w (evict_key_code g key (finish (ok []))) w unregistering
  unfolding evict_key_code forget_code
  evict-Runs w absent =
      Runs-trans w w _ (change (metadata_evict g key) unregistering) w unregistering
        (Runs-look w (λ u. (metadata_get g key u).0)
          (λ meta. evict_known_code g meta (change (metadata_evict g key) unregistering)) none
          (ap (λ (x : Option MetadataEntry × Bool). x.0) (metadata_get-none g key w absent)))
        (subst (λ v. Runs w (change (metadata_evict g key) unregistering) v unregistering)
          (metadata_evict-absent w absent) (Runs-change w (metadata_evict g key) unregistering))

  module _ (res : ResolutionResult) (s : S) (w : W) (e : ArtifactEntry (Layered Fs) (Handle × Text))
      (branch : has_prefix key (text "branch:") ≡ true)
      (found : resolve_branch g.remote g.disk g.client (trim_prefix key (text "branch:")) w.outer
        ≡ (s, ok res))
      (absent : lookup key w.metadata_cache.entries ≡ none)
      (held : lookup res.artifact_id w.artifact_cache.entries ≡ some e) where
    -- One request for the key and one eviction of it.
    abbrev pub two : List (Thread g)
    two = (none, code_of g (request key)) ∷ (none, code_of g (evict key)) ∷ []

    -- The two have ended in `u`, with nothing else begun, and a request is then given a name with
    -- nothing registered under it.
    abbrev pub Lost : W → W → Type 0
    Lost u v =
        Reach g Nothing w two u []
        × (resolve_and_register g key u ≡ some (v, ok (fs_name key)))
        × (lookup (fs_name key) v.file_systems ≡ none)

    registered-Runs :
        (v : W)
        → Runs v
            (finishing g key res s w e branch found absent held
              (change (register_fs g key e.fs) (finish (ok e.fs))))
            (register_fs g key e.fs v)
            (named g key)
    unfolding handle
    registered-Runs v =
        Runs-handle v (change (register_fs g key e.fs) (finish (ok e.fs))) _ _
          (register_fs g key e.fs v) (finish (ok e.fs))
          (Runs-change v (register_fs g key e.fs) (finish (ok e.fs)))

    abbrev pointed : W → W
    pointed v =
        register_fs g key e.fs (metadata_set g key res.artifact_id res.workflow_run.head_sha v)

    abbrev answering : W → W
    answering v = unregister_fs g key (pointed v)

    -- The request begins where the eviction is about to unregister, and ends before it does.
    both-Reach :
        (v : W)
        → artifact_get g res.artifact_id (answered g key res s w e branch found absent held)
          ≡ (v, some e.fs)
        → Reach g Nothing w two (answering v) []
    unfolding code_of
    both-Reach v got =
        let evicting =
          Reach-Runs g Nothing w w two ((none, resolve_and_register_code g key) ∷ []) [] none
            (evict_key_code g key (finish (ok []))) w unregistering idle (evict-Runs w absent) in
        let v' = metadata_set g key res.artifact_id res.workflow_run.head_sha v in
        let requested =
          Reach-Runs g Nothing w w two [] ((none, unregistering) ∷ []) none
            (resolve_and_register_code g key) (pointed v) (named g key) evicting
            (Runs-trans w v _ _ (pointed v) _
              (request-Runs g key res s w e branch found absent held v got)
              (Runs-trans v v' _ _ (pointed v) _
                (pointing-Runs g key res s w e branch found absent held v e.fs)
                (registered-Runs v'))) in
        let answered_it =
          next (pointed v) (pointed v) _ _ requested
            (ends [] ((none, unregistering) ∷ []) none (ok (fs_key_prefix ++ key)) (pointed v)) in
        next (answering v) (answering v) _ _
          (Reach-Runs g Nothing w (pointed v) two [] [] none unregistering (answering v)
            (finish (ok [])) answered_it
            (Runs-change (pointed v) (unregister_fs g key) (finish (ok []))))
          (ends [] [] none (ok []) (answering v))

    unregistered_lem :
        (v : W) → NodupKeys v.file_systems → lookup (fs_name key) (answering v).file_systems ≡ none
    unfolding unregister_fs register_fs metadata_set fs_name
    unregistered_lem v distinct =
        lookup-erase_self (fs_key_prefix ++ key) _ (insert-NodupKeys _ e.fs v.file_systems distinct)

    fresh_lem :
        (v : W) (t : ℕ)
        → v.metadata_cache.ttl ≡ pos t
        → metadata_get g key (answering v) ≡ (
          some (record {
            artifact_id = res.artifact_id;
            head_sha = res.workflow_run.head_sha;
            resolved_at = now g v;
          }),
          true,
        )
    unfolding unregister_fs register_fs
    fresh_lem v t ttl = metadata_get-set g key res.artifact_id res.workflow_run.head_sha v t ttl

    request_lem :
        (u v : W) (m : MetadataEntry) (fs : Layered Fs)
        → metadata_get g key u ≡ (some m, true)
        → artifact_get g m.artifact_id u ≡ (v, some fs)
        → resolve_and_register g key u ≡ some (v, ok (fs_name key))
    unfolding alone fs_name
    request_lem u v m fs fresh got =
        sym (resolve_and_register-whole g key u)
        ∙ Runs-whole g u (resolve_and_register_code g key) v (named g key)
            (fresh-Runs g key res u v m fs fresh got)

    -- A request for a branch that resolves to an artifact which is cached, and an eviction of the
    -- same key, where the key has no metadata, the time to live is not negative and no name is
    -- registered twice: from these two goroutines, with no other begun, a state can come in which
    -- both have ended and from which a further request, with nothing else running, is answered with
    -- the name of the key's file system, under which none is registered.
    pub evict-Lost :
        (t : ℕ)
        → w.metadata_cache.ttl ≡ pos t
        → NodupKeys w.file_systems
        → (u : W) × (v : W) × Lost u v
    unfolding unregister_fs register_fs metadata_set
    evict-Lost t ttl distinct =
        let before = answered g key res s w e branch found absent held in
        let (v, got, alike) = artifact_get-Alike g res.artifact_id before e held in
        let (e', held') = alike.cached in
        let (v', got', alike') = artifact_get-Alike g res.artifact_id (answering v) e' held' in
        (
          answering v,
          v',
          (
            both-Reach v got,
            request_lem (answering v) v' _ e'.fs
                (fresh_lem v t (ap (λ (m : MetadataCache). m.ttl) alike.meta ∙ ttl)) got',
            ap (lookup (fs_name key)) alike'.systems
                ∙ unregistered_lem v (subst NodupKeys (sym alike.systems) distinct),
          ),
        )
