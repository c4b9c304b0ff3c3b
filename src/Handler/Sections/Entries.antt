-- ===== src/Handler/Sections/Entries.antt =====
-- What a goroutine runs: a request, an eviction or a refresh through the API, a turn of the pruner;
-- each as its sections, and as a whole.
use swim.Prelude.{
  ℕ, zero, suc, ◌≡◌, refl, ◌∙◌, Bool, true, false, Option, none, some, List, [], ◌∷◌, Text, text,
  text_eq, nat_eq, ◌==◌, has_prefix, Result, ok, err, if◌then◌else◌,
}
use swim.Prelude.Int.{ℤ, pos, negsuc}
use swim.Prelude.Dict.{Dict}
use swim.Cache.Metadata.{MetadataEntry, snapshot}
use swim.Github.Client.{get_pr_state}
use swim.Handler.{GithubPreview, State, Call, done, failed, caught, reached, evict_key}
use swim.Handler.Resolve.{full_resolve, resolve_and_register}
use swim.Handler.Prune.{
  forget, prune_state, prune_number, prune_entry, prune_closed, forget_pointing, prune_stale,
  prune_by_age, prune_once,
}
use swim.Handler.Sections.{Code, finish, handle, alone, look, change, transact}
use swim.Handler.Sections.Calls.{
  failing, forget_code, evict_key_code, full_resolve_code, resolve_and_register_code,
  prune_state_code, prune_number_code, prune_entry_code, prune_closed_code, forget_pointing_code,
  prune_stale_code, prune_by_age_code, prune_once_code,
}
use swim.Handler.Sections.Alone.{
  whole, evict_key-whole, full_resolve-whole, resolve_and_register-whole, handle-whole,
}

pub data Entry : Type 0 where
  request : Text → Entry
  evict : Text → Entry
  resolve : Text → Entry
  prune : Entry

module _ {S Body Fs Handle : Type 0} (g : GithubPreview S Body Fs Handle) where
  abbrev W : Type 0
  W = State S Fs Handle

  unfoldable pub code_of : Entry → Code W Text
  code_of (request key) = resolve_and_register_code g key
  code_of (evict key) = evict_key_code g key (finish (ok []))
  code_of (resolve key) = handle (full_resolve_code g key) (λ _. finish (ok [])) (failing g)
  code_of prune = prune_once_code g (finish (ok []))

  unfoldable pub effect : Entry → Call W Text
  effect (request key) w = resolve_and_register g key w
  effect (evict key) w = some (evict_key g key w, ok [])
  effect (resolve key) w = caught (λ _. done []) failed (full_resolve g key w)
  effect prune w = some (prune_once g w, ok [])

  forget-whole :
      {A : Type 0} (key : Text) (c : Code W A) (w : W)
      → whole g (forget_code g key c) w ≡ whole g c (forget g key w)
  unfolding forget_code forget change alone
  forget-whole key c w = refl

  unless :
      {A : Type 0} (b : Bool) (c d : Code W A) (w v : W)
      → whole g d w ≡ whole g c v
      → whole g (if b then c else d) w ≡ whole g c (if b then w else v)
  unless true c d w v e = refl
  unless false c d w v e = e

  provided :
      {A : Type 0} (b : Bool) (c d : Code W A) (w v : W)
      → whole g c w ≡ whole g d v
      → whole g (if b then c else d) w ≡ whole g d (if b then v else w)
  provided true c d w v e = e
  provided false c d w v e = refl

  prune_state-whole :
      {A : Type 0} (key : Text) (meta : MetadataEntry) (c : Code W A) (r : W × Result Text Text)
      → whole g (prune_state_code g key meta c r.1) r.0 ≡ whole g c (prune_state g key meta r)
  unfolding change alone
  prune_state-whole key meta c (w, err e) = refl
  prune_state-whole key meta c (w, ok state) =
      unless (state == text "open") c _ w _ (forget-whole key c _)

  prune_number-whole :
      {A : Type 0} (key : Text) (meta : MetadataEntry) (o : Option ℕ) (c : Code W A) (w : W)
      → whole g (prune_number_code g key meta o c) w ≡ whole g c (prune_number g key meta o w)
  unfolding transact alone
  prune_number-whole key meta none c w = refl
  prune_number-whole key meta (some n) c w =
      prune_state-whole key meta c (reached g w (get_pr_state g.remote g.disk g.client n w.outer))

  prune_entry-whole :
      {A : Type 0} (key : Text) (meta : MetadataEntry) (c : Code W A) (w : W)
      → whole g (prune_entry_code g key meta c) w ≡ whole g c (prune_entry g key meta w)
  unfolding prune_entry_code prune_entry
  prune_entry-whole key meta c w =
      provided (has_prefix key (text "pr:")) _ c w _ (prune_number-whole key meta _ c w)

  prune_closed-whole :
      {A : Type 0} (entries : Dict Text MetadataEntry) (c : Code W A) (w : W)
      → whole g (prune_closed_code g entries c) w ≡ whole g c (prune_closed g entries w)
  unfolding prune_closed_code prune_closed
  prune_closed-whole [] c w = refl
  prune_closed-whole ((key, meta) ∷ entries) c w =
      prune_entry-whole key meta _ w ∙ prune_closed-whole entries c _

  forget_pointing-whole :
      {A : Type 0} (id : ℕ) (entries : Dict Text MetadataEntry) (c : Code W A) (w : W)
      → whole g (forget_pointing_code g id entries c) w ≡ whole g c (forget_pointing g id entries w)
  unfolding forget_pointing_code forget_pointing
  forget_pointing-whole id [] c w = refl
  forget_pointing-whole id ((key, meta) ∷ entries) c w =
      provided (meta.artifact_id == id) _ _ w _ (forget-whole key _ w)
      ∙ forget_pointing-whole id entries c _

  prune_stale-whole :
      {A : Type 0} (entries : Dict Text MetadataEntry) (ids : List ℕ) (c : Code W A) (w : W)
      → whole g (prune_stale_code g entries ids c) w ≡ whole g c (prune_stale g entries ids w)
  unfolding prune_stale_code prune_stale change alone
  prune_stale-whole entries [] c w = refl
  prune_stale-whole entries (id ∷ ids) c w =
      forget_pointing-whole id entries _ _ ∙ prune_stale-whole entries ids c _

  prune_by_age-whole :
      {A : Type 0} (age : ℤ) (entries : Dict Text MetadataEntry) (c : Code W A) (w : W)
      → whole g (prune_by_age_code g age entries c) w ≡ whole g c (prune_by_age g age entries w)
  unfolding look alone
  prune_by_age-whole (pos zero) entries c w = refl
  prune_by_age-whole (pos (suc n)) entries c w = prune_stale-whole entries _ c w
  prune_by_age-whole (negsuc n) entries c w = refl

  prune_once-whole :
      {A : Type 0} (c : Code W A) (w : W)
      → whole g (prune_once_code g c) w ≡ whole g c (prune_once g w)
  unfolding prune_once_code prune_once look alone
  prune_once-whole c w =
      prune_closed-whole (snapshot w.metadata_cache) _ w
      ∙ prune_by_age-whole g.max_artifact_age _ c _

  -- A request, an eviction, a refresh through the API or a turn of the pruner, run section by
  -- section with nothing between the sections, has the result of the whole call and leaves the
  -- state it leaves; it hangs or panics just where the call does.
  pub code_of-whole : (e : Entry) (w : W) → whole g (code_of e) w ≡ effect e w
  unfolding code_of effect alone
  code_of-whole (request key) w = resolve_and_register-whole g key w
  code_of-whole (evict key) w = evict_key-whole g key (finish (ok [])) w
  code_of-whole (resolve key) w =
      handle-whole g key (full_resolve_code g key) (full_resolve g key) _ _ _ _ w
        (full_resolve-whole g key w) (λ fs v. refl) (λ e v. refl)
  code_of-whole prune w = prune_once-whole (finish (ok [])) w
