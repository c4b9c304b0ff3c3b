-- ===== src/Handler/Sections/Safe/Entries.antt =====
-- The sections of a turn of the pruner, and of all that a goroutine runs, are safe.
use swim.Prelude.{
  ℕ, zero, suc, Option, none, some, List, [], ◌∷◌, Text, text, text_eq, nat_eq, ◌==◌, has_prefix,
  Result, ok, err,
}
use swim.Prelude.Int.{ℤ, pos, negsuc}
use swim.Prelude.Dict.{Dict}
use swim.Cache.Metadata.{MetadataEntry}
use swim.Handler.{GithubPreview, State}
use swim.Github.Client.{get_pr_state}
use swim.Handler.Sections.{Code}
use swim.Handler.Sections.Calls.{
  prune_state_code, prune_number_code, prune_entry_code, prune_closed_code, forget_pointing_code,
  prune_stale_code, prune_by_age_code, prune_once_code,
}
use swim.Handler.Sections.Entries.{Entry, request, evict, resolve, prune, code_of}
use swim.Handler.Sections.Safe.{
  Safe, finish-Safe, look-Safe, change-Safe, transact-Safe, handle-Safe, either_Safe, evict-Steady,
  reached-Steady,
}
use swim.Handler.Sections.Safe.Calls.{
  forget-Safe, evict_key-Safe, full_resolve-Safe, resolve_and_register-Safe,
}

module _ {S Body Fs Handle : Type 0} (g : GithubPreview S Body Fs Handle) where
  abbrev W : Type 0
  W = State S Fs Handle

  module _ {A : Type 0} (c : Code W A) (on : Safe g c) where
    prune_state-Safe :
        (key : Text) (meta : MetadataEntry) (r : Result Text Text)
        → Safe g (prune_state_code g key meta c r)
    prune_state-Safe key meta (err e) = on
    prune_state-Safe key meta (ok state) =
        either_Safe g (state == text "open") _ _ on
          (change-Safe g _ _ (evict-Steady g meta.artifact_id) (forget-Safe g key c on))

    prune_number-Safe :
        (key : Text) (meta : MetadataEntry) (o : Option ℕ)
        → Safe g (prune_number_code g key meta o c)
    prune_number-Safe key meta none = on
    prune_number-Safe key meta (some n) =
        transact-Safe g _ _
          (λ w b. reached-Steady g w (get_pr_state g.remote g.disk g.client n w.outer) b)
          (λ w b. prune_state-Safe key meta _)

    prune_entry-Safe : (key : Text) (meta : MetadataEntry) → Safe g (prune_entry_code g key meta c)
    unfolding prune_entry_code
    prune_entry-Safe key meta =
        either_Safe g (has_prefix key (text "pr:")) _ _ (prune_number-Safe key meta _) on

  module _ {A : Type 0} where
    prune_closed-Safe :
        (entries : Dict Text MetadataEntry) (c : Code W A)
        → Safe g c
        → Safe g (prune_closed_code g entries c)
    unfolding prune_closed_code
    prune_closed-Safe [] c on = on
    prune_closed-Safe ((key, meta) ∷ entries) c on =
        prune_entry-Safe _ (prune_closed-Safe entries c on) key meta

    forget_pointing-Safe :
        (id : ℕ) (entries : Dict Text MetadataEntry) (c : Code W A)
        → Safe g c
        → Safe g (forget_pointing_code g id entries c)
    unfolding forget_pointing_code
    forget_pointing-Safe id [] c on = on
    forget_pointing-Safe id ((key, meta) ∷ entries) c on =
        let rest = forget_pointing-Safe id entries c on in
        either_Safe g (meta.artifact_id == id) _ _ (forget-Safe g key _ rest) rest

    prune_stale-Safe :
        (entries : Dict Text MetadataEntry) (ids : List ℕ) (c : Code W A)
        → Safe g c
        → Safe g (prune_stale_code g entries ids c)
    unfolding prune_stale_code
    prune_stale-Safe entries [] c on = on
    prune_stale-Safe entries (id ∷ ids) c on =
        change-Safe g _ _ (evict-Steady g id)
          (forget_pointing-Safe id entries _ (prune_stale-Safe entries ids c on))

    prune_by_age-Safe :
        (age : ℤ) (entries : Dict Text MetadataEntry) (c : Code W A)
        → Safe g c
        → Safe g (prune_by_age_code g age entries c)
    prune_by_age-Safe (pos zero) entries c on = on
    prune_by_age-Safe (pos (suc n)) entries c on =
        look-Safe g _ _ (λ w b. prune_stale-Safe entries _ c on)
    prune_by_age-Safe (negsuc n) entries c on = on

    prune_once-Safe : (c : Code W A) → Safe g c → Safe g (prune_once_code g c)
    unfolding prune_once_code
    prune_once-Safe c on =
        look-Safe g _ _ (λ w b. prune_closed-Safe _ _ (prune_by_age-Safe g.max_artifact_age _ c on))

  pub code_of-Safe : (e : Entry) → Safe g (code_of g e)
  unfolding code_of
  code_of-Safe (request key) = resolve_and_register-Safe g key
  code_of-Safe (evict key) = evict_key-Safe g key _ (finish-Safe g _)
  code_of-Safe (resolve key) =
      handle-Safe g _ _ _ (full_resolve-Safe g key) (λ fs. finish-Safe g _) (λ e. finish-Safe g _)
  code_of-Safe prune = prune_once-Safe _ (finish-Safe g _)
