-- ===== src/Handler/Registered/Reach.antt =====
-- Requests, background refreshes, evictions and pruning, in any order.
use swim.Prelude.{◌≡◌, sym, Option, none, some, [], Text, text_eq, Result, ok, err, nat_eq, subst}
use swim.Prelude.Int.{ℤ}
use swim.Prelude.Dict.{lookup}
use swim.Cache.Metadata.{MetadataCache, new_metadata_cache}
use swim.Cache.Artifact.{ArtifactCache}
use swim.Handler.{GithubPreview, Layered, State, evict_key}
use swim.Handler.Resolve.{resolve_and_register, full_resolve, background_refresh, refreshed}
use swim.Handler.Prune.{forget, prune_once}
use swim.Handler.Pruned.{prune_once_lem}
use swim.Handler.Aligned.{Has}
use swim.Handler.Registered.{
  fs_name, Registered, Keeps, evict_artifact-Registered, forget-Registered, evict_key-Registered,
}
use swim.Handler.Registered.Resolved.{Found, resolve_and_register-Keeps, full_resolve-Keeps}

module _ {S Body Fs Handle : Type 0} (g : GithubPreview S Body Fs Handle) where
  forget_lem : (key : Text) (w : State S Fs Handle) → Registered g w → Registered g (forget g key w)
  unfolding forget
  forget_lem key w k = forget-Registered g key w k

  prune_once-Registered : (w : State S Fs Handle) → Registered g w → Registered g (prune_once g w)
  prune_once-Registered =
      prune_once_lem g (Registered g) forget_lem (evict_artifact-Registered g) (λ s w k. k)

  Keeps-state :
      {A : Type 0} (P : A → State S Fs Handle → Type 0)
      (o : Option (State S Fs Handle × Result Text A)) (w : State S Fs Handle) (r : Result Text A)
      → Keeps g P o
      → o ≡ some (w, r)
      → Registered g w
  unfolding Keeps
  Keeps-state P o w (ok a) k e = (subst (Keeps g P) e k).0
  Keeps-state P o w (err x) k e = subst (Keeps g P) e k

  abbrev IfAny : Option (State S Fs Handle) → Type 0
  IfAny none = Unit
  IfAny (some w) = Registered g w

  refreshed-Registered :
      (P : Layered Fs → State S Fs Handle → Type 0) (key : Text)
      (o : Option (State S Fs Handle × Result Text (Layered Fs)))
      → Keeps g P o
      → IfAny (refreshed g key o)
  unfolding Keeps
  refreshed-Registered P key none k = tt
  refreshed-Registered P key (some (v, ok a)) k = k.0
  refreshed-Registered P key (some (v, err x)) k = k

  refresh-Registered :
      (key : Text) (w v : State S Fs Handle)
      → Registered g w
      → background_refresh g key w ≡ some v
      → Registered g v
  unfolding background_refresh
  refresh-Registered key w v k e =
      subst IfAny e
        (refreshed-Registered _ key (full_resolve g key w) (full_resolve-Keeps g key w k))

  -- The middleware's calls, each whole. `w ⟶ v`: one of them takes the state `w` to `v`.
  pub data Step : State S Fs Handle → State S Fs Handle → Type 0 where
    request :
        (key : Text) (w v : State S Fs Handle) (r : Result Text Text)
        → resolve_and_register g key w ≡ some (v, r)
        → Step w v
    refresh :
        (key : Text) (w v : State S Fs Handle) → background_refresh g key w ≡ some v → Step w v
    evicted : (key : Text) (w : State S Fs Handle) → Step w (evict_key g key w)
    pruned : (w : State S Fs Handle) → Step w (prune_once g w)

  pub data Steps : State S Fs Handle → State S Fs Handle → Type 0 where
    stay : (w : State S Fs Handle) → Steps w w
    step : (u v w : State S Fs Handle) → Steps u v → Step v w → Steps u w

  pub Step-Registered : (w v : State S Fs Handle) → Step w v → Registered g w → Registered g v
  Step-Registered w v (request key _ _ r e) k =
      Keeps-state _ (resolve_and_register g key w) v r (resolve_and_register-Keeps g key w k) e
  Step-Registered w v (refresh key _ _ e) k = refresh-Registered key w v k e
  Step-Registered w _ (evicted key _) k = evict_key-Registered g key w k
  Step-Registered w _ (pruned _) k = prune_once-Registered w k

  -- In any order of whole requests, background refreshes, evictions and prunings, from a state
  -- where each key with metadata has a registered file system and one entry, each key with
  -- metadata still has a registered file system and one entry.
  pub Steps-Registered : (w v : State S Fs Handle) → Steps w v → Registered g w → Registered g v
  Steps-Registered w _ (stay _) k = k
  Steps-Registered u w (step _ v _ path s) k = Step-Registered v w s (Steps-Registered u v path k)

  abbrev pub started :
      MetadataCache → ArtifactCache (Layered Fs) (Handle × Text) → S → State S Fs Handle
  started metadata artifacts s = record {
    metadata_cache = metadata;
    artifact_cache = artifacts;
    file_systems = [];
    refresh_active = [];
    outer = s;
  }

  pub started-Registered :
      (ttl : ℤ) (artifacts : ArtifactCache (Layered Fs) (Handle × Text)) (s : S)
      → Registered g (started (new_metadata_cache ttl) artifacts s)
  unfolding new_metadata_cache lookup
  started-Registered ttl artifacts s = record { nodup = tt; named = λ k (v, h). absurd (cc) }

  -- Whatever requests, background refreshes, evictions and prunings came before, each whole and one
  -- after the other, from a start with no metadata, a request that is resolved without an error gets
  -- the name of its key, and a file system is registered under that name.
  pub Steps-served :
      (ttl : ℤ) (artifacts : ArtifactCache (Layered Fs) (Handle × Text)) (s : S)
      (w v : State S Fs Handle) (key name : Text)
      → Steps (started (new_metadata_cache ttl) artifacts s) w
      → resolve_and_register g key w ≡ some (v, ok name)
      → (name ≡ fs_name key) × Has name v.file_systems
  unfolding Keeps
  Steps-served ttl artifacts s w v key name path e =
      let k = Steps-Registered _ w path (started-Registered ttl artifacts s) in
      let (_, (is_name, named)) =
        subst (Keeps g (Found g key)) e (resolve_and_register-Keeps g key w k) in
      (is_name, subst (λ n. Has n v.file_systems) (sym is_name) named)
