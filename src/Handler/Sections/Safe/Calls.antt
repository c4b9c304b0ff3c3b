-- ===== src/Handler/Sections/Safe/Calls.antt =====
-- The sections of each of handler.go's calls are safe.
use swim.Prelude.{
  ℕ, ◌≡◌, refl, ap, ◌∙◌, Bool, true, false, not, Option, none, some, [], ◌&&◌, Text, text, text_eq,
  nat_eq, ◌==◌, ltb, has_prefix, ok,
}
use swim.Prelude.Yields.{Yields-any}
use swim.Cache.Metadata.{MetadataEntry}
use swim.Cache.Artifact.Laws.{set-Stored}
use swim.Github.{GhPullRequest, ResolutionResult, exact_head}
use swim.Handler.{GithubPreview, Layered, State, now, metadata_get, artifact_get}
use swim.Handler.Bounded.{Bounded, HasPull, resolve_pr-HasPull}
use swim.Handler.Sections.{Code, trigger}
use swim.Handler.Sections.Calls.{
  point_code, kept, artifact_set, keep_download_code, download_code, looked_up_code,
  with_artifact_code, use_artifact_code, guarded_code, settle_code, evict_known_code, forget_code,
  evict_key_code, if_open_code, resolve_number_code, full_resolve_code, fall_back_code,
  resolve_now_code, by_freshness_code, resolve_and_register_code,
}
use swim.Handler.Sections.Safe.{
  Safe, Steady, finish-Safe, look-Safe, change-Safe, transact-Safe, handle-Safe, ask-Safe,
  either_Safe, get-Steady, evict-Steady, register-Steady, unregister-Steady, set-Steady,
  touch-Steady, forgotten-Steady,
}

module _ {S Body Fs Handle : Type 0} (g : GithubPreview S Body Fs Handle) where
  abbrev W : Type 0
  W = State S Fs Handle

  looked_up-Safe :
      {A : Type 0} (f : Layered Fs → Code W A) (miss : Code W A) (o : Option (Layered Fs))
      → ((fs : Layered Fs) → Safe g (f fs))
      → Safe g miss
      → Safe g (looked_up_code g f miss o)
  looked_up-Safe f miss none hit no_hit = no_hit
  looked_up-Safe f miss (some fs) hit no_hit = hit fs

  with_artifact-Safe :
      {A : Type 0} (id : ℕ) (f : Layered Fs → Code W A) (miss : Code W A)
      → ((fs : Layered Fs) → Safe g (f fs))
      → Safe g miss
      → Safe g (with_artifact_code g id f miss)
  unfolding with_artifact_code
  with_artifact-Safe id f miss hit no_hit =
      transact-Safe g (artifact_get g id) _ (get-Steady g id)
        (λ w b. looked_up-Safe f miss (artifact_get g id w).1 hit no_hit)

  -- The loop of the artifact cache's `set` ends.
  artifact_set-Steady :
      (id : ℕ) (layered : Layered Fs) (size : ℕ) (close : Handle × Text) (w : W)
      → Bounded g w
      → (v : W) × (artifact_set g id layered size close w ≡ some v) × Steady g w v
  artifact_set-Steady id layered size close w (m, max, keys) =
      let (c, cleanups, run, stored) =
        set-Stored w.artifact_cache (now g w) id layered size (some close) m max keys in
      (_, ap (kept g w) run, ((m, stored.max ∙ max, stored.keys), refl))

  pub forget-Safe :
      {A : Type 0} (key : Text) (c : Code W A) → Safe g c → Safe g (forget_code g key c)
  unfolding forget_code
  forget-Safe key c on =
      change-Safe g _ _ (forgotten-Steady g key) (change-Safe g _ c (unregister-Steady g key) on)

  evict_known-Safe :
      {A : Type 0} (o : Option MetadataEntry) (c : Code W A)
      → Safe g c
      → Safe g (evict_known_code g o c)
  evict_known-Safe none c on = on
  evict_known-Safe (some meta) c on = change-Safe g _ c (evict-Steady g meta.artifact_id) on

  pub evict_key-Safe :
      {A : Type 0} (key : Text) (c : Code W A) → Safe g c → Safe g (evict_key_code g key c)
  unfolding evict_key_code
  evict_key-Safe key c on =
      look-Safe g _ _ (λ w b. evict_known-Safe (metadata_get g key w).0 _ (forget-Safe key c on))

  module _ (key : Text) where
    point-Safe : (id : ℕ) (sha : Text) (fs : Layered Fs) → Safe g (point_code g key id sha fs)
    unfolding point_code
    point-Safe id sha fs =
        change-Safe g _ _ (set-Steady g key id sha)
          (change-Safe g _ _ (register-Steady g key fs) (finish-Safe g (ok fs)))

    keep-Safe :
        (id : ℕ) (sha : Text) (got : Fs × ℕ × Handle × Text)
        → Safe g (keep_download_code g key id sha got)
    unfolding keep_download_code Safe
    keep-Safe id sha (raw_fs, size, f, path) w b =
        let (v, runs, steady) = artifact_set-Steady id _ size (f, path) w b in
        (v, runs, steady, point-Safe id sha _)

    download-Safe : (id : ℕ) (digest sha : Text) → Safe g (download_code g key id digest sha)
    unfolding download_code
    download-Safe id digest sha =
        ask-Safe g (λ _. Unit) _ _ (λ s. Yields-any _) (λ got _. keep-Safe id sha got)

    use-Safe : (res : ResolutionResult) → Safe g (use_artifact_code g key res)
    unfolding use_artifact_code
    use-Safe res = with_artifact-Safe res.artifact_id _ _ (point-Safe _ _) (download-Safe _ _ _)

    guarded-Safe :
        (res : ResolutionResult) (o : Option MetadataEntry) → Safe g (guarded_code g key res o)
    guarded-Safe res none = use-Safe res
    guarded-Safe res (some meta) =
        either_Safe g (not (exact_head res) && ltb res.artifact_id meta.artifact_id) _ _
          (with_artifact-Safe meta.artifact_id _ _ (point-Safe _ _) (use-Safe res)) (use-Safe res)

    settle-Safe : (res : ResolutionResult) → Safe g (settle_code g key res)
    unfolding settle_code
    settle-Safe res = look-Safe g _ _ (λ w b. guarded-Safe res (metadata_get g key w).0)

    if_open-Safe :
        (n : ℕ) (res : ResolutionResult) (o : Option GhPullRequest)
        → (pr : GhPullRequest) × (o ≡ some pr)
        → Safe g (if_open_code g key n res o)
    if_open-Safe n res none (pr, e) = absurd (cc)
    if_open-Safe n res (some pr) _ =
        either_Safe g (not (pr.state == text "open")) _ _ (evict_key-Safe key _ (finish-Safe g _))
          (settle-Safe res)

    resolve_number-Safe :
        (pr_str : Text) (o : Option ℕ) → Safe g (resolve_number_code g key pr_str o)
    resolve_number-Safe pr_str none = finish-Safe g _
    resolve_number-Safe pr_str (some n) =
        ask-Safe g (HasPull g) _ _ (resolve_pr-HasPull g n)
          (λ res pull. if_open-Safe n res res.pr pull)

    pub full_resolve-Safe : Safe g (full_resolve_code g key)
    unfolding full_resolve_code
    full_resolve-Safe =
        either_Safe g (has_prefix key (text "branch:")) _ _
          (ask-Safe g (λ _. Unit) _ _ (λ s. Yields-any _) (λ res _. settle-Safe res))
          (resolve_number-Safe _ _)

    fall_back-Safe : (e : Text) (o : Option MetadataEntry) → Safe g (fall_back_code g key e o)
    fall_back-Safe e none = finish-Safe g _
    fall_back-Safe e (some meta) =
        with_artifact-Safe meta.artifact_id _ _
          (λ fs.
            change-Safe g _ _ (touch-Steady g key)
              (change-Safe g _ _ (register-Steady g key fs) (finish-Safe g _)))
          (finish-Safe g _)

    resolve_now-Safe : Safe g (resolve_now_code g key)
    unfolding resolve_now_code
    resolve_now-Safe =
        handle-Safe g _ _ _ full_resolve-Safe (λ _. finish-Safe g _)
          (λ e. look-Safe g _ _ (λ w b. fall_back-Safe e (metadata_get g key w).0))

    trigger-Safe : {A : Type 0} (c : Code W A) → Safe g c → Safe g (trigger key c)
    unfolding Safe
    trigger-Safe c on = on

    by_freshness-Safe :
        (o : Option MetadataEntry) (fresh : Bool) → Safe g (by_freshness_code g key (o, fresh))
    by_freshness-Safe none fresh = resolve_now-Safe
    by_freshness-Safe (some meta) true =
        with_artifact-Safe meta.artifact_id _ _ (λ fs. finish-Safe g _)
          (handle-Safe g _ _ _ (download-Safe meta.artifact_id [] meta.head_sha)
            (λ fs. finish-Safe g _) (λ e. finish-Safe g _))
    by_freshness-Safe (some meta) false =
        either_Safe g g.stale_while_revalidate _ _
          (with_artifact-Safe meta.artifact_id _ _ (λ fs. trigger-Safe _ (finish-Safe g _))
            resolve_now-Safe)
          resolve_now-Safe

    pub resolve_and_register-Safe : Safe g (resolve_and_register_code g key)
    unfolding resolve_and_register_code
    resolve_and_register-Safe =
        look-Safe g _ _ (λ w b. by_freshness-Safe (metadata_get g key w).0 (metadata_get g key w).1)
