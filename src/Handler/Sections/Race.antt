-- ===== src/Handler/Sections/Race.antt =====
-- `downloadAndCache` and `fullResolve` set the metadata of a key before they register its file
-- system, and hold no lock over both.
use swim.Prelude.{
  ℕ, ◌-◌, ◌≡◌, refl, ap, ◌∙◌, sym, subst, Bool, true, false, not, Option, none, some, List, [], ◌∷◌,
  Text, text, text_eq, nat_eq, has_prefix, trim_prefix, ok, arith,
}
use swim.Prelude.Int.{pos, exceeds}
use swim.Prelude.Dict.{lookup, lookup-insert_self}
use swim.Cache.Metadata
use swim.Cache.Metadata.{MetadataCache, MetadataEntry, with_freshness}
use swim.Cache.Artifact
use swim.Cache.Artifact.{ArtifactEntry, get_found}
use swim.Github.{ResolutionResult}
use swim.Github.Client.{resolve_branch}
use swim.Handler.{
  GithubPreview, Layered, State, now, artifact_get, metadata_get, metadata_set, register_fs,
}
use swim.Handler.Sections.{Code, finish, handle, look, change}
use swim.Handler.Sections.Calls.{
  point_code, use_artifact_code, guarded_code, settle_code, full_resolve_code, named,
  fall_back_code, resolve_now_code, by_freshness_code, resolve_and_register_code,
}
use swim.Handler.Sections.Entries.{request, code_of}
use swim.Handler.Sections.Pool.{Nothing, Thread, Reach, idle}
use swim.Handler.Sections.Tidy.{Registers, Known}
use swim.Handler.Aligned.{Has}
use mathlib.Core.Option.{some-injective}
use swim.Handler.Registered.{fs_name}
use swim.Handler.Sections.Runs.{
  Runs, Runs-trans, Runs-handle, Runs-look, Runs-change, if-Runs, ask-Runs, with_artifact-Runs,
  Reach-Runs,
}

module _ {S Body Fs Handle : Type 0} (g : GithubPreview S Body Fs Handle) where
  abbrev W : Type 0
  W = State S Fs Handle

  -- The artifact is cached, and what is registered and the metadata are those of `w`.
  pub record Alike (id : ℕ) (w v : W) : Type 0 where
    pub meta : v.metadata_cache ≡ w.metadata_cache
    pub systems : v.file_systems ≡ w.file_systems
    pub cached :
        (e : ArtifactEntry (Layered Fs) (Handle × Text)) × (lookup id v.artifact_cache.entries
          ≡ some e)

  pub artifact_get-Alike :
      (id : ℕ) (w : W) (e : ArtifactEntry (Layered Fs) (Handle × Text))
      → lookup id w.artifact_cache.entries ≡ some e
      → (v : W) × (artifact_get g id w ≡ (v, some e.fs)) × Alike id w v
  unfolding artifact_get Artifact.get
  artifact_get-Alike id w e found =
      let (c, o) = get_found w.artifact_cache (now g w) id (some e) in
      (
        record w { artifact_cache = c },
        ap
            (λ x.
              let (c', o') = get_found w.artifact_cache (now g w) id x in
              (record w { artifact_cache = c' }, o'))
            found,
        record { meta = refl; systems = refl; cached = (_, lookup-insert_self id _ _) },
      )

  pub metadata_get-none :
      (key : Text) (w : W)
      → lookup key w.metadata_cache.entries ≡ none
      → metadata_get g key w ≡ (none, false)
  unfolding Metadata.get
  metadata_get-none key w absent = ap (with_freshness (now g w) w.metadata_cache.ttl) absent

  set-Known : (key : Text) (id : ℕ) (sha : Text) (w : W) → Known g key (metadata_set g key id sha w)
  unfolding metadata_set Metadata.set
  set-Known key id sha w = (_, lookup-insert_self key _ _)

  young : (n t : ℕ) → not (exceeds (n - n) (pos t)) ≡ true
  young n t = ground arith

  pub metadata_get-set :
      (key : Text) (id : ℕ) (sha : Text) (w : W) (t : ℕ)
      → w.metadata_cache.ttl ≡ pos t
      → metadata_get g key (metadata_set g key id sha w)
        ≡ (some (record { artifact_id = id; head_sha = sha; resolved_at = now g w }), true)
  unfolding metadata_set Metadata.set Metadata.get
  metadata_get-set key id sha w t ttl =
      ap (with_freshness (now g w) w.metadata_cache.ttl) (lookup-insert_self key _ _)
      ∙ ap (λ b. (some (record { artifact_id = id; head_sha = sha; resolved_at = now g w }), b))
          (ap (λ l. not (exceeds (now g w - now g w) l)) ttl ∙ young (now g w) t)

  module _ (key : Text) (res : ResolutionResult) where
    abbrev pub pointing : Layered Fs → Code W (Layered Fs)
    pointing = point_code g key res.artifact_id res.workflow_run.head_sha

    settle-Runs :
        (w v : W) (fs : Layered Fs)
        → lookup key w.metadata_cache.entries ≡ none
        → artifact_get g res.artifact_id w ≡ (v, some fs)
        → Runs w (settle_code g key res) v (pointing fs)
    unfolding settle_code use_artifact_code
    settle-Runs w v fs absent got =
        Runs-trans w w _ (use_artifact_code g key res) v _
          (Runs-look w (λ u. (metadata_get g key u).0) (guarded_code g key res) none
            (ap (λ (x : Option MetadataEntry × Bool). x.0) (metadata_get-none key w absent)))
          (with_artifact-Runs g res.artifact_id pointing _ w v fs got)

    -- A request that finds fresh metadata and a cached artifact.
    pub fresh-Runs :
        (x y : W) (m : MetadataEntry) (fs : Layered Fs)
        → metadata_get g key x ≡ (some m, true)
        → artifact_get g m.artifact_id x ≡ (y, some fs)
        → Runs x (resolve_and_register_code g key) y (named g key)
    unfolding resolve_and_register_code
    fresh-Runs x y m fs fresh got =
        Runs-trans x x _ _ y _ (Runs-look x (metadata_get g key) (by_freshness_code g key) _ fresh)
          (with_artifact-Runs g m.artifact_id (λ _. named g key) _ x y fs got)

    module _ (s : S) (w : W) (e : ArtifactEntry (Layered Fs) (Handle × Text))
        (branch : has_prefix key (text "branch:") ≡ true)
        (found : resolve_branch g.remote g.disk g.client (trim_prefix key (text "branch:")) w.outer
          ≡ (s, ok res))
        (absent : lookup key w.metadata_cache.entries ≡ none)
        (held : lookup res.artifact_id w.artifact_cache.entries ≡ some e) where
      abbrev pub answered : W
      answered = record w { outer = s }

      full_resolve-Runs :
          (v : W)
          → artifact_get g res.artifact_id answered ≡ (v, some e.fs)
          → Runs w (full_resolve_code g key) v (pointing e.fs)
      unfolding full_resolve_code
      full_resolve-Runs v got = if-Runs g _ _ _ w v (pointing e.fs) branch (
          Runs-trans w answered _ (settle_code g key res) v _
            (ask-Runs g _ (settle_code g key) w s res found)
            (settle-Runs answered v e.fs absent got))

      abbrev pub finishing : Code W (Layered Fs) → Code W Text
      finishing c =
          handle c (λ _. named g key)
            (λ x. look (λ u. (metadata_get g key u).0) (fall_back_code g key x))

      -- The first request, up to where it sets the metadata.
      pub request-Runs :
          (v : W)
          → artifact_get g res.artifact_id answered ≡ (v, some e.fs)
          → Runs w (resolve_and_register_code g key) v (finishing (pointing e.fs))
      unfolding resolve_and_register_code resolve_now_code
      request-Runs v got =
          Runs-trans w w _ (finishing (full_resolve_code g key)) v _
            (Runs-look w (metadata_get g key) (by_freshness_code g key) (none, false)
              (metadata_get-none key w absent))
            (Runs-handle w (full_resolve_code g key) _ _ v (pointing e.fs)
              (full_resolve-Runs v got))

      -- Two requests for the key.
      abbrev pub two : List (Thread g)
      two = (none, code_of g (request key)) ∷ (none, code_of g (request key)) ∷ []

      finishing-Registers :
          (fs : Layered Fs)
          → Registers g key (finishing (change (register_fs g key fs) (finish (ok fs))))
      unfolding Registers handle change register_fs fs_name
      finishing-Registers fs u v run =
          subst (λ (x : W). Has (fs_name key) x.file_systems) (some-injective _ _ run)
            (_, lookup-insert_self _ _ _)

      -- What the two come to, with nothing else begun: one has its answer, and the other is about to
      -- register the key, whose metadata is there and whose file system is not.
      abbrev pub Unbacked : W → Code W Text → Type 0
      Unbacked u c =
          Reach g Nothing w two u ((none, named g key) ∷ (none, c) ∷ [])
          × Registers g key c
          × Known g key u
          × (lookup (fs_name key) u.file_systems ≡ none)

      pub pointing-Runs :
          (v : W) (fs : Layered Fs)
          → Runs v
              (finishing (pointing fs))
              (metadata_set g key res.artifact_id res.workflow_run.head_sha v)
              (finishing (change (register_fs g key fs) (finish (ok fs))))
      unfolding point_code
      pointing-Runs v fs = Runs-handle v (pointing fs) _ _ _ _ (
          Runs-change v (metadata_set g key res.artifact_id res.workflow_run.head_sha)
            (change (register_fs g key fs) (finish (ok fs))))

      -- Of two requests for a branch that resolves to an artifact which is cached, where the key
      -- has no metadata and no registered file system and the time to live is not negative, and with
      -- no other goroutine, one can be given the name of the key's file system while no file system
      -- is registered under it: the key's metadata is there, and the next section of the other
      -- request is the one that registers the file system.
      pub request-Unbacked :
          (t : ℕ)
          → w.metadata_cache.ttl ≡ pos t
          → lookup (fs_name key) w.file_systems ≡ none
          → (u : W) × (c : Code W Text) × Unbacked u c
      unfolding code_of metadata_set
      request-Unbacked t ttl unregistered =
          let sha = res.workflow_run.head_sha in
          let (v, got, alike) = artifact_get-Alike res.artifact_id answered e held in
          let v' = metadata_set g key res.artifact_id sha v in
          let (e', held') = alike.cached in
          let (u, got', alike') = artifact_get-Alike res.artifact_id v' e' held' in
          let rest = finishing (change (register_fs g key e.fs) (finish (ok e.fs))) in
          let first =
            Reach-Runs g Nothing w w two ((none, resolve_and_register_code g key) ∷ []) [] none
              (resolve_and_register_code g key) v' rest idle
              (Runs-trans w v _ (finishing (pointing e.fs)) v' rest (request-Runs v got)
                (pointing-Runs v e.fs)) in
          let both =
            Reach-Runs g Nothing w v' two [] ((none, rest) ∷ []) none
              (resolve_and_register_code g key) u (named g key) first
              (fresh-Runs v' u _ e'.fs
                (metadata_get-set key res.artifact_id sha v t
                  (ap (λ (m : MetadataCache). m.ttl) alike.meta ∙ ttl))
                got') in
          (
            u,
            rest,
            (
              both,
              finishing-Registers e.fs,
              subst (λ m. Has key m.entries) (sym alike'.meta)
                  (set-Known key res.artifact_id sha v),
              ap (lookup (fs_name key)) (alike'.systems ∙ alike.systems) ∙ unregistered,
            ),
          )
