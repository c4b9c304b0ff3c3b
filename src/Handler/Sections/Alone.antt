-- ===== src/Handler/Sections/Alone.antt =====
-- The sections of handler.go's calls, run with nothing between them, are the calls.
use swim.Prelude.{
  ℕ, ◌≡◌, refl, ap, ◌∙◌, Bool, true, false, not, Option, none, some, List, [], ◌&&◌, Text, text,
  text_eq, nat_eq, ◌==◌, ltb, has_prefix, Result, ok, err, if◌then◌else◌,
}
use swim.Prelude.Actions.{Action}
use swim.Cache.Metadata.{MetadataEntry}
use swim.Cache.Artifact.{ArtifactCache}
use swim.Github.{GhPullRequest, ResolutionResult, exact_head}
use swim.Handler.{
  GithubPreview, Layered, State, Call, caught, failed, outside, reached, artifact_get, metadata_get,
  evict_known, evict_key,
}
use swim.Handler.Resolve.{
  point, cached, keep_download, download_and_cache, looked_up, with_artifact, use_artifact, guarded,
  settle, if_open, resolve_number, full_resolve, fall_back, resolve_now, by_freshness,
  resolve_and_register, trigger_background_refresh,
}
use swim.Handler.Sections.{
  Code, finish, section, trigger, resume, handle, alone, look, change, transact, on_result,
}
use swim.Handler.Sections.Calls.{
  kept, ask, failing, point_code, keep_download_code, download_code, looked_up_code,
  with_artifact_code, use_artifact_code, guarded_code, settle_code, evict_known_code, forget_code,
  evict_key_code, if_open_code, resolve_number_code, full_resolve_code, fall_back_code,
  resolve_now_code, by_freshness_code, resolve_and_register_code,
}

module _ {W : Type 0} (mark : Text → W → W) where
  resume-handle :
      {A B : Type 0} (o : Option W) (d : Code W A) (k : A → Code W B) (h : Text → Code W B)
      → ((v : W)
          → alone mark (handle d k h) v
            ≡ caught (λ a. alone mark (k a)) (λ e. alone mark (h e)) (alone mark d v))
      → resume o (alone mark (handle d k h))
        ≡ caught (λ a. alone mark (k a)) (λ e. alone mark (h e)) (resume o (alone mark d))
  unfolding caught
  resume-handle none d k h same = refl
  resume-handle (some v) d k h same = same v

  pub alone-handle :
      {A B : Type 0} (c : Code W A) (k : A → Code W B) (h : Text → Code W B) (w : W)
      → alone mark (handle c k h) w
        ≡ caught (λ a. alone mark (k a)) (λ e. alone mark (h e)) (alone mark c w)
  unfolding alone handle caught
  alone-handle (finish (ok a)) k h w = refl
  alone-handle (finish (err e)) k h w = refl
  alone-handle (section f c) k h w = resume-handle (f w) (c w) k h (alone-handle (c w) k h)
  alone-handle (trigger key c) k h w = alone-handle c k h (mark key w)

module _ {W A B : Type 0} where
  caught_at :
      (f f' : A → Call W B) (h h' : Text → Call W B) (o : Option (W × Result Text A))
      → ((a : A) (w : W) → f a w ≡ f' a w)
      → ((e : Text) (w : W) → h e w ≡ h' e w)
      → caught f h o ≡ caught f' h' o
  unfolding caught
  caught_at f f' h h' none on_ok on_err = refl
  caught_at f f' h h' (some (w, ok a)) on_ok on_err = on_ok a w
  caught_at f f' h h' (some (w, err x)) on_ok on_err = on_err x w

module _ {S Body Fs Handle : Type 0} (g : GithubPreview S Body Fs Handle) where
  abbrev W : Type 0
  W = State S Fs Handle

  -- A call that no other goroutine disturbs.
  abbrev pub whole : {A : Type 0} → Code W A → Call W A
  whole = alone (trigger_background_refresh g)

  branched :
      {A : Type 0} (b : Bool) (c d : Code W A) (m n : Call W A) (w : W)
      → whole c w ≡ m w
      → whole d w ≡ n w
      → whole (if b then c else d) w ≡ (if b then m else n) w
  branched true c d m n w ec ed = ec
  branched false c d m n w ec ed = ed

  if_either :
      {A : Type 0} (b : Bool) (c d : Code W A) (w : W) (r t : Option (W × Result Text A))
      → whole c w ≡ r
      → whole d w ≡ t
      → whole (if b then c else d) w ≡ (if b then r else t)
  if_either true c d w r t ec ed = ec
  if_either false c d w r t ec ed = ed

  reached-whole :
      {A B : Type 0} (k : A → Code W B) (w : W) (r : S × Result Text A)
      → whole (on_result k (failing g) (reached g w r).1) (reached g w r).0
        ≡ caught (λ a. whole (k a)) failed (some (reached g w r))
  unfolding alone caught
  reached-whole k w (s, ok a) = refl
  reached-whole k w (s, err e) = refl

  ask-whole :
      {A B : Type 0} (m : Action S Text A) (k : A → Code W B) (f : A → Call W B) (w : W)
      → ((a : A) (v : W) → whole (k a) v ≡ f a v)
      → whole (ask g m k) w ≡ caught f failed (outside g m w)
  unfolding transact alone outside
  ask-whole m k f w same =
      reached-whole k w (m w.outer)
      ∙ caught_at _ f failed failed (some (reached g w (m w.outer))) same (λ e v. refl)

  looked_up-whole :
      {A : Type 0} (f : Layered Fs → Code W A) (miss : Code W A) (f' : Layered Fs → Call W A)
      (miss' : Call W A) (w : W) (o : Option (Layered Fs))
      → ((fs : Layered Fs) (v : W) → whole (f fs) v ≡ f' fs v)
      → ((v : W) → whole miss v ≡ miss' v)
      → whole (looked_up_code g f miss o) w ≡ looked_up g f' miss' (w, o)
  looked_up-whole f miss f' miss' w none hit no_hit = no_hit w
  looked_up-whole f miss f' miss' w (some fs) hit no_hit = hit fs w

  with_artifact-whole :
      {A : Type 0} (id : ℕ) (f : Layered Fs → Code W A) (miss : Code W A)
      (f' : Layered Fs → Call W A) (miss' : Call W A) (w : W)
      → ((fs : Layered Fs) (v : W) → whole (f fs) v ≡ f' fs v)
      → ((v : W) → whole miss v ≡ miss' v)
      → whole (with_artifact_code g id f miss) w ≡ with_artifact g id f' miss' w
  unfolding with_artifact_code with_artifact transact alone
  with_artifact-whole id f miss f' miss' w =
      looked_up-whole f miss f' miss' (artifact_get g id w).0 (artifact_get g id w).1

  module _ (key : Text) where
    point-whole :
        (id : ℕ) (sha : Text) (fs : Layered Fs) (w : W)
        → whole (point_code g key id sha fs) w ≡ some (point g key id sha fs w, ok fs)
    unfolding point_code point change alone
    point-whole id sha fs w = refl

    kept-whole :
        (id : ℕ) (sha : Text) (fs : Layered Fs) (w : W)
        (o : Option (ArtifactCache (Layered Fs) (Handle × Text) × List (Handle × Text)))
        → resume (kept g w o) (whole (point_code g key id sha fs)) ≡ cached g key id sha fs w o
    kept-whole id sha fs w none = refl
    kept-whole id sha fs w (some (c, cleanups)) = point-whole id sha fs _

    keep-whole :
        (id : ℕ) (sha : Text) (got : Fs × ℕ × Handle × Text) (w : W)
        → whole (keep_download_code g key id sha got) w ≡ keep_download g key id sha got w
    unfolding keep_download_code keep_download alone
    keep-whole id sha (raw_fs, size, f, path) w = kept-whole id sha _ w _

    download-whole :
        (id : ℕ) (digest sha : Text) (w : W)
        → whole (download_code g key id digest sha) w ≡ download_and_cache g key id digest sha w
    unfolding download_code download_and_cache
    download-whole id digest sha w = ask-whole _ _ _ w (keep-whole id sha)

    use-whole :
        (res : ResolutionResult) (w : W)
        → whole (use_artifact_code g key res) w ≡ use_artifact g key res w
    unfolding use_artifact_code use_artifact
    use-whole res w =
        with_artifact-whole res.artifact_id _ _ _ _ w (point-whole _ _) (download-whole _ _ _)

    guarded-whole :
        (res : ResolutionResult) (o : Option MetadataEntry) (w : W)
        → whole (guarded_code g key res o) w ≡ guarded g key res o w
    guarded-whole res none w = use-whole res w
    guarded-whole res (some meta) w =
        branched (not (exact_head res) && ltb res.artifact_id meta.artifact_id) _ _ _ _ w
          (with_artifact-whole meta.artifact_id _ _ _ _ w (point-whole _ _) (use-whole res))
          (use-whole res w)

    settle-whole :
        (res : ResolutionResult) (w : W) → whole (settle_code g key res) w ≡ settle g key res w
    unfolding settle_code settle look alone
    settle-whole res w = guarded-whole res (metadata_get g key w).0 w

    evict_known-whole :
        {A : Type 0} (o : Option MetadataEntry) (c : Code W A) (w : W)
        → whole (evict_known_code g o c) w ≡ whole c (evict_known g o w)
    unfolding change alone
    evict_known-whole none c w = refl
    evict_known-whole (some meta) c w = refl

    pub evict_key-whole :
        {A : Type 0} (c : Code W A) (w : W)
        → whole (evict_key_code g key c) w ≡ whole c (evict_key g key w)
    unfolding evict_key_code evict_key forget_code look change alone
    evict_key-whole c w = evict_known-whole (metadata_get g key w).0 _ w

    if_open-whole :
        (n : ℕ) (res : ResolutionResult) (o : Option GhPullRequest) (w : W)
        → whole (if_open_code g key n res o) w ≡ if_open g key n res o w
    unfolding alone
    if_open-whole n res none w = refl
    if_open-whole n res (some pr) w =
        if_either (not (pr.state == text "open")) _ _ w _ _ (evict_key-whole _ w)
          (settle-whole res w)

    resolve_number-whole :
        (pr_str : Text) (o : Option ℕ) (w : W)
        → whole (resolve_number_code g key pr_str o) w ≡ resolve_number g key pr_str o w
    unfolding alone
    resolve_number-whole pr_str none w = refl
    resolve_number-whole pr_str (some n) w =
        ask-whole _ _ _ w (λ res v. if_open-whole n res res.pr v)

    pub full_resolve-whole : (w : W) → whole (full_resolve_code g key) w ≡ full_resolve g key w
    unfolding full_resolve_code full_resolve
    full_resolve-whole w =
        branched (has_prefix key (text "branch:")) _ _ _ _ w (ask-whole _ _ _ w settle-whole)
          (resolve_number-whole _ _ w)

    fall_back-whole :
        (e : Text) (o : Option MetadataEntry) (w : W)
        → whole (fall_back_code g key e o) w ≡ fall_back g key e o w
    unfolding change alone
    fall_back-whole e none w = refl
    fall_back-whole e (some meta) w =
        with_artifact-whole meta.artifact_id _ _ _ _ w (λ fs v. refl) (λ v. refl)

    pub handle-whole :
        {A B : Type 0} (c : Code W A) (m : Call W A) (k : A → Code W B) (h : Text → Code W B)
        (f : A → Call W B) (f' : Text → Call W B) (w : W)
        → whole c w ≡ m w
        → ((a : A) (v : W) → whole (k a) v ≡ f a v)
        → ((e : Text) (v : W) → whole (h e) v ≡ f' e v)
        → whole (handle c k h) w ≡ caught f f' (m w)
    handle-whole c m k h f f' w same on_ok on_err =
        alone-handle (trigger_background_refresh g) c k h w
        ∙ ap (caught (λ a. whole (k a)) (λ e. whole (h e))) same
        ∙ caught_at _ f _ f' (m w) on_ok on_err

    resolve_now-whole : (w : W) → whole (resolve_now_code g key) w ≡ resolve_now g key w
    unfolding resolve_now_code resolve_now look alone
    resolve_now-whole w =
        handle-whole (full_resolve_code g key) (full_resolve g key) _ _ _ _ w (full_resolve-whole w)
          (λ fs v. refl) (λ e v. fall_back-whole e (metadata_get g key v).0 v)

    by_freshness-whole :
        (o : Option MetadataEntry) (fresh : Bool) (w : W)
        → whole (by_freshness_code g key (o, fresh)) w ≡ by_freshness g key o fresh w
    unfolding alone
    by_freshness-whole none fresh w = resolve_now-whole w
    by_freshness-whole (some meta) true w =
        with_artifact-whole meta.artifact_id _ _ _ _ w (λ fs v. refl)
          (λ v.
            handle-whole _ (download_and_cache g key meta.artifact_id [] meta.head_sha) _ _ _ _ v
              (download-whole _ _ _ v) (λ fs u. refl) (λ e u. refl))
    by_freshness-whole (some meta) false w =
        branched g.stale_while_revalidate _ _ _ _ w
          (with_artifact-whole meta.artifact_id _ _ _ _ w (λ fs v. refl) resolve_now-whole)
          (resolve_now-whole w)

    pub resolve_and_register-whole :
        (w : W) → whole (resolve_and_register_code g key) w ≡ resolve_and_register g key w
    unfolding resolve_and_register_code resolve_and_register look alone
    resolve_and_register-whole w =
        by_freshness-whole (metadata_get g key w).0 (metadata_get g key w).1 w
