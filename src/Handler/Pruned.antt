-- ===== src/Handler/Pruned.antt =====
-- What a turn of the pruner keeps: where a claim about the state survives each thing that
-- `pruneOnce` does to one entry, it survives the turn.
use swim.Prelude.{
  ℕ, zero, suc, Bool, true, false, Option, none, some, List, [], ◌∷◌, Text, text, text_eq, Result,
  ok, err, if◌then◌else◌, ◌==◌, has_prefix, trim_prefix, nat_eq,
}
use swim.Prelude.Int.{ℤ, pos, negsuc}
use swim.Prelude.Dict.{Dict}
use swim.Cache.Metadata.{MetadataEntry, snapshot}
use swim.Config.{strconv_atoi}
use swim.Handler.{GithubPreview, State, artifact_evict, reached}
use swim.Handler.Prune.{
  forget, prune_state, prune_number, prune_entry, prune_closed, forget_pointing, prune_stale,
  prune_by_age, prune_once,
}

module _ {S Body Fs Handle : Type 0} (g : GithubPreview S Body Fs Handle)
    (P : State S Fs Handle → Type 0)
    (forgets : (key : Text) (w : State S Fs Handle) → P w → P (forget g key w))
    (evicts : (id : ℕ) (w : State S Fs Handle) → P w → P (artifact_evict g id w))
    (reaches : (s : S) (w : State S Fs Handle) → P w → P (record w { outer = s })) where
  if_lem : (b : Bool) (v w : State S Fs Handle) → P v → P w → P (if b then v else w)
  if_lem true v w kv kw = kv
  if_lem false v w kv kw = kw

  prune_state_lem :
      (key : Text) (meta : MetadataEntry) (w : State S Fs Handle) (s : S) (r : Result Text Text)
      → P w
      → P (prune_state g key meta (reached g w (s, r)))
  prune_state_lem key meta w s (err e) k = reaches s w k
  prune_state_lem key meta w s (ok state) k =
      if_lem _ _ _ (reaches s w k) (forgets key _ (evicts meta.artifact_id _ (reaches s w k)))

  prune_number_lem :
      (key : Text) (meta : MetadataEntry) (o : Option ℕ) (w : State S Fs Handle)
      → P w
      → P (prune_number g key meta o w)
  prune_number_lem key meta none w k = k
  prune_number_lem key meta (some n) w k = prune_state_lem key meta w _ _ k

  prune_closed_lem :
      (d : Dict Text MetadataEntry) (w : State S Fs Handle) → P w → P (prune_closed g d w)
  unfolding prune_closed prune_entry
  prune_closed_lem [] w k = k
  prune_closed_lem ((key, meta) ∷ d) w k = prune_closed_lem d (prune_entry g key meta w) (
      if_lem (has_prefix key (text "pr:")) _ w
        (prune_number_lem key meta (strconv_atoi (trim_prefix key (text "pr:"))) w k) k)

  forget_pointing_lem :
      (id : ℕ) (d : Dict Text MetadataEntry) (w : State S Fs Handle)
      → P w
      → P (forget_pointing g id d w)
  unfolding forget_pointing
  forget_pointing_lem id [] w k = k
  forget_pointing_lem id ((key, meta) ∷ d) w k =
      forget_pointing_lem id d _
        (if_lem (meta.artifact_id == id) (forget g key w) w (forgets key w k) k)

  prune_stale_lem :
      (d : Dict Text MetadataEntry) (ids : List ℕ) (w : State S Fs Handle)
      → P w
      → P (prune_stale g d ids w)
  unfolding prune_stale
  prune_stale_lem d [] w k = k
  prune_stale_lem d (id ∷ ids) w k =
      prune_stale_lem d ids _ (forget_pointing_lem id d (artifact_evict g id w) (evicts id w k))

  prune_by_age_lem :
      (z : ℤ) (d : Dict Text MetadataEntry) (w : State S Fs Handle) → P w → P (prune_by_age g z d w)
  prune_by_age_lem (pos zero) d w k = k
  prune_by_age_lem (pos (suc n)) d w k = prune_stale_lem d _ w k
  prune_by_age_lem (negsuc n) d w k = k

  pub prune_once_lem : (w : State S Fs Handle) → P w → P (prune_once g w)
  unfolding prune_once
  prune_once_lem w k =
      prune_by_age_lem g.max_artifact_age (snapshot w.metadata_cache)
        (prune_closed g (snapshot w.metadata_cache) w)
        (prune_closed_lem (snapshot w.metadata_cache) w k)
