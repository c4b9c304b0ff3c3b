-- ===== src/Handler/Registered.antt =====
-- Whatever calls of the middleware come one after the other, a key with metadata has a registered file
-- system.
pub mod Resolved
pub mod Reach
use swim.Prelude.{
  ℕ, ◌≡◌, refl, sym, ap, ◌∙◌, Bool, true, false, Option, none, some, List, [], ◌∷◌, ◌++◌, Text,
  text_eq, Result, ok, err,
}
use swim.Prelude.Dict.{lookup}
use swim.Prelude.Actions.{Action}
use swim.Cache.Metadata
use swim.Cache.Metadata.{MetadataEntry, touch_found, evict_found}
use swim.Cache.Artifact
use swim.Handler.{
  GithubPreview, Layered, State, Call, caught, outside, fs_key_prefix, register_fs, unregister_fs,
  metadata_set, metadata_touch, metadata_evict, artifact_get, artifact_evict, now, metadata_get,
  evict_known, evict_key, reached,
}
use swim.Handler.Aligned.{
  Has, Aligned, Aligned-point, Aligned-register, Aligned-touch, Aligned-forget, Aligned-drop,
}

append_inj : (p s t : Text) → p ++ s ≡ p ++ t → s ≡ t
append_inj [] s t e = e
append_inj (c ∷ p) s t e = append_inj p s t (cc)

unfoldable pub fs_name : Text → Text
fs_name key = fs_key_prefix ++ key

pub fs_name_inj : (j k : Text) → fs_name j ≡ fs_name k → j ≡ k
unfolding fs_name
fs_name_inj j k e = append_inj fs_key_prefix j k e

module _ {S Body Fs Handle : Type 0} (g : GithubPreview S Body Fs Handle) where
  -- Each key with metadata is registered, and no key has two entries.
  abbrev pub Registered : State S Fs Handle → Type 0
  Registered w = Aligned fs_name fs_name_inj w.metadata_cache.entries w.file_systems

  -- Also where a call fails; `P` is claimed of a result.
  unfoldable pub Keeps :
      {A : Type 0}
      → (A → State S Fs Handle → Type 0)
      → Option (State S Fs Handle × Result Text A)
      → Type 0
  Keeps P none = Unit
  Keeps P (some (w, ok a)) = Registered w × P a w
  Keeps P (some (w, err e)) = Registered w

  pub Keeps-none : {A : Type 0} (P : A → State S Fs Handle → Type 0) → Keeps P none
  unfolding Keeps
  Keeps-none P = tt

  pub Keeps-ok :
      {A : Type 0} (P : A → State S Fs Handle → Type 0) (a : A) (w : State S Fs Handle)
      → Registered w
      → P a w
      → Keeps P (some (w, ok a))
  unfolding Keeps
  Keeps-ok P a w k p = (k, p)

  pub Keeps-err :
      {A : Type 0} (P : A → State S Fs Handle → Type 0) (e : Text) (w : State S Fs Handle)
      → Registered w
      → Keeps P (some (w, err e))
  unfolding Keeps
  Keeps-err P e w k = k

  pub caught-Keeps :
      {A B : Type 0} (P : A → State S Fs Handle → Type 0) (Q : B → State S Fs Handle → Type 0)
      (f : A → Call (State S Fs Handle) B) (h : Text → Call (State S Fs Handle) B)
      (r : Option (State S Fs Handle × Result Text A))
      → Keeps P r
      → ((a : A) (w : State S Fs Handle) → Registered w → P a w → Keeps Q (f a w))
      → ((e : Text) (w : State S Fs Handle) → Registered w → Keeps Q (h e w))
      → Keeps Q (caught f h r)
  unfolding Keeps caught
  caught-Keeps P Q f h none k on_ok on_err = tt
  caught-Keeps P Q f h (some (w, ok a)) (k, p) on_ok on_err = on_ok a w k p
  caught-Keeps P Q f h (some (w, err e)) k on_ok on_err = on_err e w k

  reached-Keeps :
      {A : Type 0} (w : State S Fs Handle) (r : S × Result Text A)
      → Registered w
      → Keeps (λ _ _. Unit) (some (reached g w r))
  unfolding Keeps
  reached-Keeps w (s, ok a) k = (k, tt)
  reached-Keeps w (s, err e) k = k

  pub outside-Keeps :
      {A : Type 0} (m : Action S Text A) (w : State S Fs Handle)
      → Registered w
      → Keeps (λ _ _. Unit) (outside g m w)
  unfolding outside
  outside-Keeps m w k = reached-Keeps w (m w.outer) k

  pub register-Registered :
      (key : Text) (fs : Layered Fs) (w : State S Fs Handle)
      → Registered w
      → Registered (register_fs g key fs w)
  unfolding register_fs fs_name
  register-Registered key fs w k = Aligned-register fs_name fs_name_inj (fs_name key) fs _ _ k

  touch_found-Registered :
      (key : Text) (n : ℕ) (w : State S Fs Handle) (o : Option MetadataEntry)
      → lookup key w.metadata_cache.entries ≡ o
      → Registered w
      → Registered (record w { metadata_cache = touch_found w.metadata_cache n key o })
  touch_found-Registered key n w none h k = k
  touch_found-Registered key n w (some e) h k =
      Aligned-touch fs_name fs_name_inj key (record e { resolved_at = n }) _ _ (e, h) k

  pub touch-Registered :
      (key : Text) (w : State S Fs Handle) → Registered w → Registered (metadata_touch g key w)
  unfolding metadata_touch Metadata.touch
  touch-Registered key w k =
      touch_found-Registered key (now g w) w (lookup key w.metadata_cache.entries) refl k

  pub evict_artifact-Registered :
      (id : ℕ) (w : State S Fs Handle) → Registered w → Registered (artifact_evict g id w)
  unfolding artifact_evict
  evict_artifact-Registered id w k = k

  evict_known-Registered :
      (o : Option MetadataEntry) (w : State S Fs Handle)
      → Registered w
      → Registered (evict_known g o w)
  evict_known-Registered none w k = k
  evict_known-Registered (some meta) w k = evict_artifact-Registered meta.artifact_id w k

  forget_found-Registered :
      (key : Text) (w : State S Fs Handle) (o : Option MetadataEntry)
      → lookup key w.metadata_cache.entries ≡ o
      → Registered w
      → Registered (
          unregister_fs g key
            (record w { metadata_cache = (evict_found w.metadata_cache key o).0 }))
  unfolding unregister_fs fs_name
  forget_found-Registered key w none h k = Aligned-drop fs_name fs_name_inj key _ _ h k
  forget_found-Registered key w (some e) h k = Aligned-forget fs_name fs_name_inj key _ _ k

  pub forget-Registered :
      (key : Text) (w : State S Fs Handle)
      → Registered w
      → Registered (unregister_fs g key (metadata_evict g key w))
  unfolding metadata_evict Metadata.evict
  forget-Registered key w k =
      forget_found-Registered key w (lookup key w.metadata_cache.entries) refl k

  pub evict_key-Registered :
      (key : Text) (w : State S Fs Handle) → Registered w → Registered (evict_key g key w)
  unfolding evict_key
  evict_key-Registered key w k =
      forget-Registered key (evict_known g (metadata_get g key w).0 w)
        (evict_known-Registered (metadata_get g key w).0 w k)
