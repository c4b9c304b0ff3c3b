-- ===== src/Handler/Sections/Tidy.antt =====
-- Requests for branches and their refreshes: no section unregisters a file system, and one that sets
-- the metadata of a key stands just before the one that registers the key's file system.
pub mod Calls
use swim.Prelude.{
  ℕ, zero, suc, ◌≡◌, refl, sym, ap, ◌∙◌, subst, Bool, true, false, not, Option, none, some, List,
  [], ◌∷◌, ◌++◌, ◌&&◌, Text, text, text_eq, nat_eq, ◌==◌, ltb, has_prefix, trim_prefix, Result, ok,
  err, if◌then◌else◌, ◌⊎◌, inl, inr,
}
use swim.Prelude.Dict.{lookup, lookup-insert_self, lookup-insert_cases}
use swim.Prelude.Actions.{Action}
use swim.Cache.Metadata
use swim.Cache.Metadata.{MetadataEntry, touch_found}
use swim.Cache.Artifact.{ArtifactCache}
use swim.Github.{ResolutionResult, exact_head}
use swim.Handler.{
  GithubPreview, Layered, State, reached, metadata_get, metadata_set, metadata_touch, artifact_get,
  register_fs, fs_key_prefix, now,
}
use swim.Handler.Aligned.{Has, Has-insert}
use swim.Handler.Registered.{fs_name}
use swim.Handler.Sections.{
  Code, finish, section, trigger, look, change, transact, on_result, handle,
}
use swim.Handler.Sections.Calls.{
  failing, ask, point_code, kept, artifact_set, keep_download_code, download_code, looked_up_code,
  with_artifact_code, use_artifact_code, guarded_code, settle_code, full_resolve_code, named,
  fall_back_code, resolve_now_code, by_freshness_code, resolve_and_register_code,
}
use mathlib.Core.Option.{some-injective}

abbrev pub Branch : Text → Type 0
Branch key = has_prefix key (text "branch:") ≡ true

module _ {S Body Fs Handle : Type 0} (g : GithubPreview S Body Fs Handle) where
  abbrev W : Type 0
  W = State S Fs Handle

  abbrev pub Known : Text → W → Type 0
  Known key w = Has key w.metadata_cache.entries

  abbrev pub Backed : Text → W → Type 0
  Backed key w = Has (fs_name key) w.file_systems

  -- The next section registers the key's file system.
  unfoldable pub Registers : {A : Type 0} → Text → Code W A → Type 0
  Registers key (finish r) = ⊥
  Registers key (section f c) = (w v : W) → f w ≡ some v → Backed key v
  Registers key (trigger j c) = ⊥

  -- From `w` to `v` all stays registered, and what is known anew is registered by what follows.
  abbrev pub Careful : {A : Type 0} → W → W → Code W A → Type 0
  Careful w v c =
      ((key : Text) → Backed key w → Backed key v)
      × ((key : Text) → Known key v → Known key w ⊎ Registers key c)

  unfoldable pub Tidy : {A : Type 0} → Code W A → Type 0
  Tidy (finish r) = Unit
  Tidy (section f c) = (w v : W) → f w ≡ some v → Careful w v (c w) × Tidy (c w)
  Tidy (trigger key c) = Branch key × Tidy c

  pub finish-Tidy : {A : Type 0} (r : Result Text A) → Tidy (finish r)
  unfolding Tidy
  finish-Tidy r = tt

  pub same-Careful :
      {A : Type 0} (w v : W) (c : Code W A)
      → v.metadata_cache ≡ w.metadata_cache
      → v.file_systems ≡ w.file_systems
      → Careful w v c
  same-Careful w v c meta systems = (
    λ key. subst (Has (fs_name key)) (sym systems),
    λ key known. inl (subst (λ m. Has key m.entries) meta known),
  )

  pub look-Tidy :
      {A B : Type 0} (f : W → B) (k : B → Code W A) → ((b : B) → Tidy (k b)) → Tidy (look f k)
  unfolding look Tidy
  look-Tidy f k on w v run =
      let is = some-injective _ _ run in
      (
        same-Careful w v _ (ap (λ (x : W). x.metadata_cache) (sym is))
            (ap (λ (x : W). x.file_systems) (sym is)),
        on (f w),
      )

  pub transact-Tidy :
      {A B : Type 0} (f : W → W × B) (k : B → Code W A)
      → ((w : W)
          → ((f w).0.metadata_cache ≡ w.metadata_cache) × ((f w).0.file_systems ≡ w.file_systems))
      → ((b : B) → Tidy (k b))
      → Tidy (transact f k)
  unfolding transact Tidy
  transact-Tidy f k same on w v run =
      let is = some-injective _ _ run in
      (
        same-Careful w v _ (ap (λ (x : W). x.metadata_cache) (sym is) ∙ (same w).0)
            (ap (λ (x : W). x.file_systems) (sym is) ∙ (same w).1),
        on (f w).1,
      )

  pub change-Tidy :
      {A : Type 0} (f : W → W) (c : Code W A)
      → ((w : W) → Careful w (f w) c)
      → Tidy c
      → Tidy (change f c)
  unfolding change Tidy
  change-Tidy f c careful on w v run =
      (subst (λ x. Careful w x c) (some-injective _ _ run) (careful w), on)

  handle-Registers :
      {A B : Type 0} (key : Text) (c : Code W A) (k : A → Code W B) (h : Text → Code W B)
      → Registers key c
      → Registers key (handle c k h)
  unfolding handle Registers
  handle-Registers key (finish r) k h p = absurd p
  handle-Registers key (section f c) k h p = p
  handle-Registers key (trigger j c) k h p = absurd p

  pub handle-Tidy :
      {A B : Type 0} (c : Code W A) (k : A → Code W B) (h : Text → Code W B)
      → Tidy c
      → ((a : A) → Tidy (k a))
      → ((e : Text) → Tidy (h e))
      → Tidy (handle c k h)
  unfolding handle Tidy
  handle-Tidy (finish (ok a)) k h on on_ok on_err = on_ok a
  handle-Tidy (finish (err e)) k h on on_ok on_err = on_err e
  handle-Tidy (section f c) k h on on_ok on_err = λ w v run.
      let ((keep, known), rest) = on w v run in
      (
        (
          keep,
          λ key p. elim (known key p) [
            | inl q ↦ inl q
            | inr q ↦ inr (handle-Registers key (c w) k h q)
          ],
        ),
        handle-Tidy (c w) k h rest on_ok on_err,
      )
  handle-Tidy (trigger key c) k h (branch, on) on_ok on_err =
      (branch, handle-Tidy c k h on on_ok on_err)

  pub either_Tidy :
      {A : Type 0} (b : Bool) (c d : Code W A) → Tidy c → Tidy d → Tidy (if b then c else d)
  either_Tidy true c d tc td = tc
  either_Tidy false c d tc td = td

  pub true-Tidy :
      {A : Type 0} (b : Bool) (c d : Code W A) → b ≡ true → Tidy c → Tidy (if b then c else d)
  true-Tidy true c d e tc = tc
  true-Tidy false c d e tc = absurd (cc)

  result-Tidy :
      {A B : Type 0} (r : Result Text A) (k : A → Code W B)
      → ((a : A) → Tidy (k a))
      → Tidy (on_result k (failing g) r)
  result-Tidy (ok a) k on = on a
  result-Tidy (err e) k on = finish-Tidy (err e)

  reached-same :
      {A : Type 0} (w : W) (r : S × Result Text A)
      → ((reached g w r).0.metadata_cache ≡ w.metadata_cache)
        × ((reached g w r).0.file_systems ≡ w.file_systems)
  reached-same w (s, r) = (refl, refl)

  pub ask-Tidy :
      {A B : Type 0} (m : Action S Text A) (k : A → Code W B)
      → ((a : A) → Tidy (k a))
      → Tidy (ask g m k)
  ask-Tidy m k on = transact-Tidy _ _ (λ w. reached-same w (m w.outer)) (λ r. result-Tidy r k on)

  looked_up-Tidy :
      {A : Type 0} (f : Layered Fs → Code W A) (miss : Code W A) (o : Option (Layered Fs))
      → ((fs : Layered Fs) → Tidy (f fs))
      → Tidy miss
      → Tidy (looked_up_code g f miss o)
  looked_up-Tidy f miss none hit no_hit = no_hit
  looked_up-Tidy f miss (some fs) hit no_hit = hit fs

  pub with_artifact-Tidy :
      {A : Type 0} (id : ℕ) (f : Layered Fs → Code W A) (miss : Code W A)
      → ((fs : Layered Fs) → Tidy (f fs))
      → Tidy miss
      → Tidy (with_artifact_code g id f miss)
  unfolding with_artifact_code artifact_get
  with_artifact-Tidy id f miss hit no_hit =
      transact-Tidy (artifact_get g id) _ (λ w. (refl, refl))
        (λ o. looked_up-Tidy f miss o hit no_hit)
