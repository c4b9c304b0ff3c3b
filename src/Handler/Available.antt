-- ===== src/Handler/Available.antt =====
-- A preview stays up while GitHub is down: what `resolveAndRegister` does for a branch whose last
-- artifact is still cached.
use swim.Prelude.{
  ℕ, ◌≡◌, sym, ap, subst, Bool, true, false, not, Option, none, some, List, ◌&&◌, Text, text,
  text_eq, nat_eq, ltb, Result, ok, err, if◌then◌else◌, has_prefix,
}
use swim.Prelude.Dict.{lookup}
use swim.Prelude.Actions.{Action}
use swim.Cache.Metadata
use swim.Cache.Metadata.{MetadataEntry, with_freshness}
use swim.Cache.Artifact
use swim.Cache.Artifact.{ArtifactCache, ArtifactEntry, get_found}
use swim.Github.{ResolutionResult, exact_head}
use swim.Handler.{
  GithubPreview, Layered, State, Call, caught, failed, outside, reached, now, artifact_get,
  metadata_get,
}
use swim.Handler.Resolve.{
  cached, keep_download, download_and_cache, looked_up, with_artifact, use_artifact, guarded,
  settle, full_resolve, fall_back, resolve_now, by_freshness, resolve_and_register, serve_cached,
  point,
}
use swim.Handler.Outcomes.{Holds, Holds-ok, Holds-err, caught-Holds, if-Holds}
use swim.Handler.Aligned.{Has, Has-insert}

module _ {S Body Fs Handle : Type 0} (g : GithubPreview S Body Fs Handle) where
  -- No error.
  unfoldable pub Served : {A : Type 0} → Option (State S Fs Handle × Result Text A) → Type 0
  Served none = Unit
  Served (some (w, ok a)) = Unit
  Served (some (w, err e)) = ⊥

  ok-Served : {A : Type 0} (a : A) (w : State S Fs Handle) → Served (some (w, ok a))
  unfolding Served
  ok-Served a w = tt

  -- The key's entry points to an artifact that is cached.
  abbrev pub Held : Text → State S Fs Handle → Type 0
  Held key w =
      (m : MetadataEntry) × (lookup key w.metadata_cache.entries ≡ some m)
      × Has m.artifact_id w.artifact_cache.entries

  caught-Served :
      {A B : Type 0} (P : A → State S Fs Handle → Type 0) (Q : State S Fs Handle → Type 0)
      (f : A → Call (State S Fs Handle) B) (h : Text → Call (State S Fs Handle) B)
      (r : Option (State S Fs Handle × Result Text A))
      → Holds Unit P Q r
      → ((a : A) (w : State S Fs Handle) → Served (f a w))
      → ((e : Text) (w : State S Fs Handle) → Q w → Served (h e w))
      → Served (caught f h r)
  unfolding Holds Served caught
  caught-Served P Q f h none k on_ok on_err = tt
  caught-Served P Q f h (some (w, ok a)) k on_ok on_err = on_ok a w
  caught-Served P Q f h (some (w, err e)) k on_ok on_err = on_err e w k

  module _ (key : Text) where
    abbrev HeldAt : {A : Type 0} → A → State S Fs Handle → Type 0
    HeldAt _ w = Held key w

    abbrev Any : {A : Type 0} → A → State S Fs Handle → Type 0
    Any _ w = Unit

    reached-Held :
        {A : Type 0} (w : State S Fs Handle) (r : S × Result Text A)
        → Held key w
        → Holds Unit (HeldAt {A = A}) (Held key) (some (reached g w r))
    unfolding Holds
    reached-Held w (s, ok a) k = k
    reached-Held w (s, err e) k = k

    outside-Held :
        {A : Type 0} (m : Action S Text A) (w : State S Fs Handle)
        → Held key w
        → Holds Unit (HeldAt {A = A}) (Held key) (outside g m w)
    unfolding outside
    outside-Held m w k = reached-Held w (m w.outer) k

    get-Held :
        (id : ℕ) (w : State S Fs Handle) (o : Option (ArtifactEntry (Layered Fs) (Handle × Text)))
        → Held key w
        → Held key (record w { artifact_cache = (get_found w.artifact_cache (now g w) id o).0 })
    get-Held id w none k = k
    get-Held id w (some e) (m, found, has) = (m, found, Has-insert m.artifact_id id _ _ has)

    artifact_get-Held :
        (id : ℕ) (w : State S Fs Handle) → Held key w → Held key (artifact_get g id w).0
    unfolding artifact_get Artifact.get
    artifact_get-Held id w k = get-Held id w (lookup id w.artifact_cache.entries) k

    cached-Ends :
        (id : ℕ) (sha : Text) (fs : Layered Fs) (w : State S Fs Handle)
        (o : Option (ArtifactCache (Layered Fs) (Handle × Text) × List (Handle × Text)))
        → Holds Unit Any (Held key) (cached g key id sha fs w o)
    unfolding Holds
    cached-Ends id sha fs w none = tt
    cached-Ends id sha fs w (some (c, cleanups)) = tt

    download-Ends :
        (id : ℕ) (digest sha : Text) (w : State S Fs Handle)
        → Held key w
        → Holds Unit Any (Held key) (download_and_cache g key id digest sha w)
    unfolding download_and_cache keep_download
    download-Ends id digest sha w k =
        caught-Holds Unit HeldAt (Held key) Any (Held key) _ _ _ (outside-Held _ w k)
          (λ (raw_fs, size, f, path) v _. cached-Ends id sha _ v _) (Holds-err Unit Any (Held key))

    looked_up-Ends :
        (f : Layered Fs → Call (State S Fs Handle) (Layered Fs))
        (miss : Call (State S Fs Handle) (Layered Fs)) (w : State S Fs Handle)
        (o : Option (Layered Fs))
        → ((fs : Layered Fs) → Holds Unit Any (Held key) (f fs w))
        → Holds Unit Any (Held key) (miss w)
        → Holds Unit Any (Held key) (looked_up g f miss (w, o))
    looked_up-Ends f miss w none hit no_hit = no_hit
    looked_up-Ends f miss w (some fs) hit no_hit = hit fs

    with_artifact-Ends :
        (id : ℕ) (sha : Text) (miss : Call (State S Fs Handle) (Layered Fs)) (w : State S Fs Handle)
        → Held key w
        → ((v : State S Fs Handle) → Held key v → Holds Unit Any (Held key) (miss v))
        → Holds Unit Any (Held key) (with_artifact g id (serve_cached g key id sha) miss w)
    unfolding with_artifact
    with_artifact-Ends id sha miss w k no_hit =
        looked_up-Ends (serve_cached g key id sha) miss (artifact_get g id w).0
          (artifact_get g id w).1
          (λ fs. Holds-ok Unit Any (Held key) fs (point g key id sha fs (artifact_get g id w).0) tt)
          (no_hit (artifact_get g id w).0 (artifact_get-Held id w k))

    use_artifact-Ends :
        (res : ResolutionResult) (w : State S Fs Handle)
        → Held key w
        → Holds Unit Any (Held key) (use_artifact g key res w)
    unfolding use_artifact
    use_artifact-Ends res w k =
        with_artifact-Ends res.artifact_id _ _ w k (λ v kv. download-Ends _ _ _ v kv)

    guarded-Ends :
        (res : ResolutionResult) (o : Option MetadataEntry) (w : State S Fs Handle)
        → Held key w
        → Holds Unit Any (Held key) (guarded g key res o w)
    guarded-Ends res none w k = use_artifact-Ends res w k
    guarded-Ends res (some meta) w k =
        if-Holds Unit Any (Held key) (not (exact_head res) && ltb res.artifact_id meta.artifact_id)
          _ _ w
          (with_artifact-Ends meta.artifact_id meta.head_sha _ w k
            (λ v kv. use_artifact-Ends res v kv))
          (use_artifact-Ends res w k)

    -- Where the resolution of a branch fails, its artifact is still held.
    full_resolve-Ends :
        (w : State S Fs Handle)
        → has_prefix key (text "branch:") ≡ true
        → Held key w
        → Holds Unit Any (Held key) (full_resolve g key w)
    unfolding full_resolve settle
    full_resolve-Ends w branch k = rw branch (
        caught-Holds Unit HeldAt (Held key) Any (Held key) _ _ _ (outside-Held _ w k)
          (λ res v kv. guarded-Ends res (metadata_get g key v).0 v kv)
          (Holds-err Unit Any (Held key)))

    hit-Served :
        {A : Type 0} (id : ℕ) (f : Layered Fs → Call (State S Fs Handle) A)
        (miss : Call (State S Fs Handle) A) (w : State S Fs Handle)
        → ((fs : Layered Fs) (v : State S Fs Handle) → Served (f fs v))
        → Has id w.artifact_cache.entries
        → Served (with_artifact g id f miss w)
    unfolding with_artifact artifact_get Artifact.get
    hit-Served id f miss w fine (e, found) = rw found (fine e.fs _)

    fall_back-Served :
        (e : Text) (o : Option MetadataEntry) (w : State S Fs Handle) (m : MetadataEntry)
        → o ≡ some m
        → Has m.artifact_id w.artifact_cache.entries
        → Served (fall_back g key e o w)
    fall_back-Served e o w m is has =
        subst (λ p. Served (fall_back g key e p w)) (sym is)
          (hit-Served m.artifact_id _ (failed e) w (λ fs v. ok-Served _ _) has)

    resolve_now-Served :
        (w : State S Fs Handle)
        → has_prefix key (text "branch:") ≡ true
        → Held key w
        → Served (resolve_now g key w)
    unfolding resolve_now Metadata.get
    resolve_now-Served w branch k =
        caught-Served Any (Held key) _ _ (full_resolve g key w) (full_resolve-Ends w branch k)
          (λ a v. ok-Served _ v)
          (λ e v (m, found, has).
            fall_back-Served e _ v m
              (ap (λ o. (with_freshness (now g v) v.metadata_cache.ttl o).0) found) has)

    if-Served :
        (b : Bool) (m n : Call (State S Fs Handle) Text) (w : State S Fs Handle)
        → Served (m w)
        → Served (n w)
        → Served ((if b then m else n) w)
    if-Served true m n w km kn = km
    if-Served false m n w km kn = kn

    by_freshness-Served :
        (m : MetadataEntry) (fresh : Bool) (w : State S Fs Handle)
        → has_prefix key (text "branch:") ≡ true
        → lookup key w.metadata_cache.entries ≡ some m
        → Has m.artifact_id w.artifact_cache.entries
        → Served (by_freshness g key (some m) fresh w)
    by_freshness-Served m true w branch found has =
        hit-Served m.artifact_id _ _ w (λ fs v. ok-Served _ _) has
    by_freshness-Served m false w branch found has =
        if-Served g.stale_while_revalidate _ _ w
          (hit-Served m.artifact_id _ _ w (λ fs v. ok-Served _ _) has)
          (resolve_now-Served w branch (m, found, has))

    -- For the key of a branch whose entry points to a cached artifact, `resolveAndRegister` does
    -- not end with an error, whatever GitHub answers and however old the entry is.
    pub branch-Served :
        (w : State S Fs Handle)
        → has_prefix key (text "branch:") ≡ true
        → Held key w
        → Served (resolve_and_register g key w)
    unfolding resolve_and_register Metadata.get
    branch-Served w branch (m, found, has) =
        subst
          (λ o. Served (
            by_freshness g key (with_freshness (now g w) w.metadata_cache.ttl o).0
              (with_freshness (now g w) w.metadata_cache.ttl o).1 w))
          (sym found) (by_freshness-Served m _ w branch found has)
