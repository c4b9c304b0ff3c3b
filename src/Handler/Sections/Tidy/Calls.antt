-- ===== src/Handler/Sections/Tidy/Calls.antt =====
-- The calls for a branch are tidy: none of them evicts.
use swim.Prelude.{
  ℕ, ◌≡◌, refl, sym, ap, ◌∙◌, subst, Bool, true, false, not, Option, none, some, List, [], ◌&&◌,
  Text, text_eq, nat_eq, ltb, ok, inl, inr,
}
use swim.Prelude.Dict.{lookup, lookup-insert_self, lookup-insert_cases}
use swim.Cache.Metadata
use swim.Cache.Metadata.{MetadataEntry, touch_found}
use swim.Cache.Artifact.{ArtifactCache}
use swim.Github.{ResolutionResult, exact_head}
use swim.Handler.{GithubPreview, Layered, State, metadata_set, metadata_touch, register_fs, now}
use swim.Handler.Aligned.{Has, Has-insert}
use swim.Handler.Registered.{fs_name}
use swim.Handler.Sections.{Code, trigger, change}
use swim.Handler.Sections.Calls.{
  point_code, kept, keep_download_code, download_code, use_artifact_code, guarded_code, settle_code,
  full_resolve_code, fall_back_code, resolve_now_code, by_freshness_code, resolve_and_register_code,
}
use mathlib.Core.Option.{some-injective}
use swim.Handler.Sections.Tidy.{
  Branch, Known, Registers, Tidy, finish-Tidy, same-Careful, look-Tidy, change-Tidy, handle-Tidy,
  either_Tidy, true-Tidy, ask-Tidy, with_artifact-Tidy,
}

module _ {S Body Fs Handle : Type 0} (g : GithubPreview S Body Fs Handle) (key : Text) where
  abbrev W : Type 0
  W = State S Fs Handle

  -- The section that registers, behind one that makes the key known.
  register-Registers :
      {A : Type 0} (fs : Layered Fs) (c : Code W A)
      → Registers g key (change (register_fs g key fs) c)
  unfolding change Registers register_fs fs_name
  register-Registers fs c w v run =
      subst (λ (x : W). Has (fs_name key) x.file_systems) (some-injective _ _ run)
        (fs, lookup-insert_self (fs_name key) fs w.file_systems)

  register-Tidy :
      {A : Type 0} (fs : Layered Fs) (c : Code W A)
      → Tidy g c
      → Tidy g (change (register_fs g key fs) c)
  unfolding register_fs fs_name
  register-Tidy fs c on =
      change-Tidy g (register_fs g key fs) c
        (λ w. (λ j. Has-insert (fs_name j) (fs_name key) fs w.file_systems, λ j known. inl known))
        on

  set-Tidy :
      {A : Type 0} (id : ℕ) (sha : Text) (fs : Layered Fs) (c : Code W A)
      → Tidy g c
      → Tidy g (change (metadata_set g key id sha) (change (register_fs g key fs) c))
  unfolding metadata_set Metadata.set
  set-Tidy id sha fs c on =
      change-Tidy g (metadata_set g key id sha) _
        (λ w. (
          λ j backed. backed,
          λ j (m, found). elim (lookup-insert_cases j key _ m w.metadata_cache.entries found) [
            | inl (same, _) ↦ inr (
                subst (λ i. Registers g i (change (register_fs g key fs) c)) (sym same)
                  (register-Registers fs c))
            | inr old ↦ inl (m, old)
          ],
        ))
        (register-Tidy fs c on)

  touch-Known :
      (j : Text) (n : ℕ) (w : W) (o : Option MetadataEntry)
      → lookup key w.metadata_cache.entries ≡ o
      → Has j (touch_found w.metadata_cache n key o).entries
      → Known g j w
  touch-Known j n w none found known = known
  touch-Known j n w (some e) found (m, known) =
      elim (lookup-insert_cases j key _ m w.metadata_cache.entries known) [
        | inl (same, _) ↦ (e, ap (λ i. lookup i w.metadata_cache.entries) same ∙ found)
        | inr old ↦ (m, old)
      ]

  touch-Tidy : {A : Type 0} (c : Code W A) → Tidy g c → Tidy g (change (metadata_touch g key) c)
  unfolding metadata_touch Metadata.touch
  touch-Tidy c on =
      change-Tidy g (metadata_touch g key) c
        (λ w. (λ j backed. backed, λ j known. inl (touch-Known j (now g w) w _ refl known))) on

  point-Tidy : (id : ℕ) (sha : Text) (fs : Layered Fs) → Tidy g (point_code g key id sha fs)
  unfolding point_code
  point-Tidy id sha fs = set-Tidy id sha fs _ (finish-Tidy g (ok fs))

  kept-same :
      (w v : W) (o : Option (ArtifactCache (Layered Fs) (Handle × Text) × List (Handle × Text)))
      → kept g w o ≡ some v
      → (v.metadata_cache ≡ w.metadata_cache) × (v.file_systems ≡ w.file_systems)
  kept-same w v none run = absurd (cc)
  kept-same w v (some (c, cleanups)) run =
      let is = some-injective _ _ run in
      (ap (λ (x : W). x.metadata_cache) (sym is), ap (λ (x : W). x.file_systems) (sym is))

  keep-Tidy :
      (id : ℕ) (sha : Text) (got : Fs × ℕ × Handle × Text)
      → Tidy g (keep_download_code g key id sha got)
  unfolding keep_download_code Tidy
  keep-Tidy id sha (raw_fs, size, f, path) w v run =
      let (meta, systems) = kept-same w v _ run in
      (same-Careful g w v _ meta systems, point-Tidy id sha _)

  download-Tidy : (id : ℕ) (digest sha : Text) → Tidy g (download_code g key id digest sha)
  unfolding download_code
  download-Tidy id digest sha = ask-Tidy g _ _ (keep-Tidy id sha)

  use-Tidy : (res : ResolutionResult) → Tidy g (use_artifact_code g key res)
  unfolding use_artifact_code
  use-Tidy res = with_artifact-Tidy g res.artifact_id _ _ (point-Tidy _ _) (download-Tidy _ _ _)

  guarded-Tidy :
      (res : ResolutionResult) (o : Option MetadataEntry) → Tidy g (guarded_code g key res o)
  guarded-Tidy res none = use-Tidy res
  guarded-Tidy res (some meta) =
      either_Tidy g (not (exact_head res) && ltb res.artifact_id meta.artifact_id) _ _
        (with_artifact-Tidy g meta.artifact_id _ _ (point-Tidy _ _) (use-Tidy res)) (use-Tidy res)

  settle-Tidy : (res : ResolutionResult) → Tidy g (settle_code g key res)
  unfolding settle_code
  settle-Tidy res = look-Tidy g _ _ (guarded-Tidy res)

  fall_back-Tidy : (e : Text) (o : Option MetadataEntry) → Tidy g (fall_back_code g key e o)
  fall_back-Tidy e none = finish-Tidy g _
  fall_back-Tidy e (some meta) =
      with_artifact-Tidy g meta.artifact_id _ _
        (λ fs. touch-Tidy _ (register-Tidy fs _ (finish-Tidy g _))) (finish-Tidy g _)

  module _ (branch : Branch key) where
    pub full_resolve-Tidy : Tidy g (full_resolve_code g key)
    unfolding full_resolve_code
    full_resolve-Tidy = true-Tidy g _ _ _ branch (ask-Tidy g _ _ settle-Tidy)

    resolve_now-Tidy : Tidy g (resolve_now_code g key)
    unfolding resolve_now_code
    resolve_now-Tidy =
        handle-Tidy g _ _ _ full_resolve-Tidy (λ fs. finish-Tidy g _)
          (λ e. look-Tidy g _ _ (fall_back-Tidy e))

    trigger-Tidy : {A : Type 0} (c : Code W A) → Tidy g c → Tidy g (trigger key c)
    unfolding Tidy
    trigger-Tidy c on = (branch, on)

    by_freshness-Tidy : (x : Option MetadataEntry × Bool) → Tidy g (by_freshness_code g key x)
    by_freshness-Tidy (none, fresh) = resolve_now-Tidy
    by_freshness-Tidy (some meta, true) =
        with_artifact-Tidy g meta.artifact_id _ _ (λ fs. finish-Tidy g _)
          (handle-Tidy g _ _ _ (download-Tidy meta.artifact_id [] meta.head_sha)
            (λ fs. finish-Tidy g _) (λ e. finish-Tidy g _))
    by_freshness-Tidy (some meta, false) =
        either_Tidy g g.stale_while_revalidate _ _
          (with_artifact-Tidy g meta.artifact_id _ _ (λ fs. trigger-Tidy _ (finish-Tidy g _))
            resolve_now-Tidy)
          resolve_now-Tidy

    pub resolve_and_register-Tidy : Tidy g (resolve_and_register_code g key)
    unfolding resolve_and_register_code
    resolve_and_register-Tidy = look-Tidy g _ _ by_freshness-Tidy
