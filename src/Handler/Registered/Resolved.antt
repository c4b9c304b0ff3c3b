-- ===== src/Handler/Registered/Resolved.antt =====
-- `resolveAndRegister`: the name that it gives out is registered.
use swim.Prelude.{
  ℕ, ◌≡◌, refl, sym, Bool, true, false, Option, none, some, List, Text, text, text_eq, ok,
  if◌then◌else◌, not, ◌==◌, Bool-cases, inl, inr, has_prefix, ◌&&◌, ltb, has, subst,
}
use swim.Prelude.Dict.{lookup, lookup-insert_self}
use swim.Cache.Metadata
use swim.Cache.Metadata.{MetadataEntry, with_freshness}
use swim.Cache.Artifact.{ArtifactCache}
use swim.Github.{GhPullRequest, ResolutionResult, exact_head}
use swim.Handler.{
  GithubPreview, Layered, State, Call, register_fs, metadata_set, metadata_touch, artifact_get,
  metadata_get, now,
}
use swim.Handler.Resolve.{
  point, cached, keep_download, download_and_cache, looked_up, with_artifact, use_artifact, guarded,
  settle, if_open, resolve_number, full_resolve, fall_back, resolve_now, by_freshness,
  resolve_and_register, trigger_background_refresh,
}
use swim.Handler.Aligned.{Has, Aligned-point}
use swim.Handler.Registered.{
  fs_name, fs_name_inj, Registered, Keeps, Keeps-none, Keeps-ok, Keeps-err, caught-Keeps,
  outside-Keeps, register-Registered, touch-Registered, evict_key-Registered,
}

module _ {S Body Fs Handle : Type 0} (g : GithubPreview S Body Fs Handle) (key : Text) where
  abbrev pub Named : {A : Type 0} → A → State S Fs Handle → Type 0
  Named _ w = Has (fs_name key) w.file_systems

  abbrev pub Found : Text → State S Fs Handle → Type 0
  Found name w = (name ≡ fs_name key) × Named name w

  point-Keeps :
      (id : ℕ) (sha : Text) (fs : Layered Fs) (w : State S Fs Handle)
      → Registered g w
      → Registered g (point g key id sha fs w) × Named fs (point g key id sha fs w)
  unfolding point register_fs metadata_set Metadata.set fs_name
  point-Keeps id sha fs w k = (
    Aligned-point fs_name fs_name_inj key _ fs _ _ k,
    (fs, lookup-insert_self (fs_name key) fs w.file_systems),
  )

  point-ok :
      (id : ℕ) (sha : Text) (fs : Layered Fs) (w : State S Fs Handle)
      → Registered g w
      → Keeps g Named (some (point g key id sha fs w, ok fs))
  point-ok id sha fs w k =
      let (kv, named) = point-Keeps id sha fs w k in
      Keeps-ok g Named fs (point g key id sha fs w) kv named

  cached-Keeps :
      (id : ℕ) (sha : Text) (fs : Layered Fs) (w : State S Fs Handle)
      (o : Option (ArtifactCache (Layered Fs) (Handle × Text) × List (Handle × Text)))
      → Registered g w
      → Keeps g Named (cached g key id sha fs w o)
  cached-Keeps id sha fs w none k = Keeps-none g Named
  cached-Keeps id sha fs w (some (c, cleanups)) k = point-ok id sha fs _ k

  download-Keeps :
      (id : ℕ) (digest sha : Text) (w : State S Fs Handle)
      → Registered g w
      → Keeps g Named (download_and_cache g key id digest sha w)
  unfolding download_and_cache keep_download
  download-Keeps id digest sha w k =
      caught-Keeps g _ Named _ _ _ (outside-Keeps g _ w k)
        (λ (raw_fs, size, f, path) v kv _. cached-Keeps id sha _ v _ kv) (Keeps-err g _)

  if-Keeps :
      {A : Type 0} (P : A → State S Fs Handle → Type 0) (b : Bool)
      (m n : Call (State S Fs Handle) A) (w : State S Fs Handle)
      → Keeps g P (m w)
      → Keeps g P (n w)
      → Keeps g P ((if b then m else n) w)
  if-Keeps P true m n w km kn = km
  if-Keeps P false m n w km kn = kn

  looked_up-Keeps :
      {A : Type 0} (P : A → State S Fs Handle → Type 0)
      (f : Layered Fs → Call (State S Fs Handle) A) (miss : Call (State S Fs Handle) A)
      (w : State S Fs Handle) (o : Option (Layered Fs))
      → ((fs : Layered Fs) → Keeps g P (f fs w))
      → Keeps g P (miss w)
      → Keeps g P (looked_up g f miss (w, o))
  looked_up-Keeps P f miss w none hit no_hit = no_hit
  looked_up-Keeps P f miss w (some fs) hit no_hit = hit fs

  -- A look at the artifacts changes neither the metadata nor the file systems.
  with_artifact-Keeps :
      {A : Type 0} (P : A → State S Fs Handle → Type 0) (id : ℕ)
      (f : Layered Fs → Call (State S Fs Handle) A) (miss : Call (State S Fs Handle) A)
      (w : State S Fs Handle)
      → Registered g w
      → ((fs : Layered Fs) (v : State S Fs Handle)
          → Registered g v
          → v.file_systems ≡ w.file_systems
          → Keeps g P (f fs v))
      → ((v : State S Fs Handle) → Registered g v → Keeps g P (miss v))
      → Keeps g P (with_artifact g id f miss w)
  unfolding artifact_get with_artifact
  with_artifact-Keeps P id f miss w k hit no_hit =
      looked_up-Keeps P f miss (artifact_get g id w).0 (artifact_get g id w).1
        (λ fs. hit fs (artifact_get g id w).0 k refl) (no_hit (artifact_get g id w).0 k)

  use_artifact-Keeps :
      (res : ResolutionResult) (w : State S Fs Handle)
      → Registered g w
      → Keeps g Named (use_artifact g key res w)
  unfolding use_artifact
  use_artifact-Keeps res w k =
      with_artifact-Keeps Named _ _ _ w k (λ fs v kv _. point-ok _ _ fs v kv)
        (λ v kv. download-Keeps _ _ _ v kv)

  guarded-Keeps :
      (res : ResolutionResult) (o : Option MetadataEntry) (w : State S Fs Handle)
      → Registered g w
      → Keeps g Named (guarded g key res o w)
  guarded-Keeps res none w k = use_artifact-Keeps res w k
  guarded-Keeps res (some meta) w k =
      elim (Bool-cases (not (exact_head res) && ltb res.artifact_id meta.artifact_id)) [
        | inl older ↦ rw older (
            with_artifact-Keeps Named _ _ _ w k (λ fs v kv _. point-ok _ _ fs v kv)
              (λ v kv. use_artifact-Keeps res v kv))
        | inr usable ↦ rw usable (use_artifact-Keeps res w k)
      ]

  settle-Keeps :
      (res : ResolutionResult) (w : State S Fs Handle)
      → Registered g w
      → Keeps g Named (settle g key res w)
  unfolding settle
  settle-Keeps res w k = guarded-Keeps res (metadata_get g key w).0 w k

  if_open-Keeps :
      (n : ℕ) (res : ResolutionResult) (o : Option GhPullRequest) (w : State S Fs Handle)
      → Registered g w
      → Keeps g Named (if_open g key n res o w)
  if_open-Keeps n res none w k = Keeps-none g Named
  if_open-Keeps n res (some pr) w k = elim (Bool-cases (not (pr.state == text "open"))) [
    | inl closed ↦ rw closed (Keeps-err g Named _ _ (evict_key-Registered g key w k))
    | inr is_open ↦ rw is_open (settle-Keeps res w k)
  ]

  resolve_number-Keeps :
      (pr_str : Text) (o : Option ℕ) (w : State S Fs Handle)
      → Registered g w
      → Keeps g Named (resolve_number g key pr_str o w)
  resolve_number-Keeps pr_str none w k = Keeps-err g Named _ w k
  resolve_number-Keeps pr_str (some n) w k =
      caught-Keeps g _ Named _ _ _ (outside-Keeps g _ w k)
        (λ res v kv _. if_open-Keeps n res res.pr v kv) (Keeps-err g _)

  pub full_resolve-Keeps :
      (w : State S Fs Handle) → Registered g w → Keeps g Named (full_resolve g key w)
  unfolding full_resolve
  full_resolve-Keeps w k = elim (Bool-cases (has_prefix key (text "branch:"))) [
    | inl branch ↦ rw branch (
        caught-Keeps g _ Named _ _ _ (outside-Keeps g _ w k) (λ res v kv _. settle-Keeps res v kv)
          (Keeps-err g _))
    | inr pr ↦ rw pr (resolve_number-Keeps _ _ w k)
  ]

  fall_back-Keeps :
      (e : Text) (o : Option MetadataEntry) (w : State S Fs Handle)
      → Registered g w
      → Keeps g Found (fall_back g key e o w)
  unfolding register_fs fs_name
  fall_back-Keeps e none w k = Keeps-err g Found e w k
  fall_back-Keeps e (some meta) w k =
      with_artifact-Keeps Found _ _ _ w k
        (λ fs v kv _.
          Keeps-ok g Found _ _
            (register-Registered g key fs (metadata_touch g key v) (touch-Registered g key v kv))
            (refl, (fs, lookup-insert_self (fs_name key) fs _)))
        (Keeps-err g Found e)

  resolve_now-Keeps : (w : State S Fs Handle) → Registered g w → Keeps g Found (resolve_now g key w)
  unfolding resolve_now fs_name
  resolve_now-Keeps w k =
      caught-Keeps g Named Found _ _ _ (full_resolve-Keeps w k)
        (λ fs v kv named. Keeps-ok g Found _ v kv (refl, named))
        (λ e v kv. fall_back-Keeps e (metadata_get g key v).0 v kv)

  trigger-Keeps :
      (w : State S Fs Handle)
      → Registered g w
      → Named tt w
      → Registered g (trigger_background_refresh g key w)
        × Named tt (trigger_background_refresh g key w)
  unfolding trigger_background_refresh
  trigger-Keeps w k named = elim (Bool-cases (has key w.refresh_active)) [
    | inl active ↦ rw active (k, named)
    | inr idle ↦ rw idle (k, named)
  ]

  by_freshness-Keeps :
      (o : Option MetadataEntry) (fresh : Bool) (w : State S Fs Handle)
      → lookup key w.metadata_cache.entries ≡ o
      → Registered g w
      → Keeps g Found (by_freshness g key o fresh w)
  unfolding fs_name
  by_freshness-Keeps none fresh w h k = resolve_now-Keeps w k
  by_freshness-Keeps (some meta) true w h k =
      with_artifact-Keeps Found _ _ _ w k
        (λ fs v kv same.
          Keeps-ok g Found _ v kv
            (refl, subst (Has (fs_name key)) (sym same) (k.named key (meta, h))))
        (λ v kv.
          caught-Keeps g Named Found _ _ _ (download-Keeps _ _ _ v kv)
            (λ fs u ku named. Keeps-ok g Found _ u ku (refl, named)) (Keeps-err g _))
  by_freshness-Keeps (some meta) false w h k =
      if-Keeps Found g.stale_while_revalidate _ _ w
        (with_artifact-Keeps Found _ _ _ w k
          (λ fs v kv same.
            let (ku, named) =
              trigger-Keeps v kv (subst (Has (fs_name key)) (sym same) (k.named key (meta, h))) in
            Keeps-ok g Found _ _ ku (refl, named))
          (λ v kv. resolve_now-Keeps v kv))
        (resolve_now-Keeps w k)

  freshness-Keeps :
      (n : ℕ) (o : Option MetadataEntry) (w : State S Fs Handle)
      → lookup key w.metadata_cache.entries ≡ o
      → Registered g w
      → Keeps g Found (
          by_freshness g key
            (with_freshness n w.metadata_cache.ttl o).0
            (with_freshness n w.metadata_cache.ttl o).1
            w)
  freshness-Keeps n none w h k = by_freshness-Keeps none false w h k
  freshness-Keeps n (some meta) w h k = by_freshness-Keeps (some meta) _ w h k

  -- From a state where each key with metadata is registered, `resolveAndRegister` ends in such a
  -- state, with an error or not; without one, the name that it gives out is the key's, and a file
  -- system is registered under it.
  pub resolve_and_register-Keeps :
      (w : State S Fs Handle) → Registered g w → Keeps g Found (resolve_and_register g key w)
  unfolding resolve_and_register Metadata.get
  resolve_and_register-Keeps w k =
      freshness-Keeps (now g w) (lookup key w.metadata_cache.entries) w refl k
