-- ===== src/Handler/Sections/Tests.antt =====
-- Goroutines that share the middleware at concrete states.
use swim.Prelude.{
  subst, sym, arith, ◌⊎◌, ℕ, nat_eq, ◌≡◌, refl, Bool, true, false, Option, none, some, List, [],
  ◌∷◌, Text, text, text_eq, has, has_prefix, trim_prefix, Result, ok, err, ℕ_discrete,
}
use swim.Prelude.Int.{pos}
use swim.Prelude.Dict.{lookup}
use swim.Cache.Metadata
use swim.Cache.Metadata.{MetadataEntry}
use swim.Cache.Artifact
use swim.Cache.Artifact.{ArtifactEntry}
use swim.Github.{ResolutionResult}
use swim.Github.Client.{resolve_branch}
use swim.Github.Tests.{client, remote, disk, run_of, artifact_of}
use swim.Handler.{Layered, State, metadata_get, artifact_get}
use swim.Handler.Resolve.{trigger_background_refresh}
use swim.Handler.Bounded.{Bounded}
use swim.Handler.Registered.{fs_name}
use swim.Handler.Tests.{g, initial, layered, main, held}
use swim.Handler.Returns.{Returns, Reach-Returns}
use swim.Handler.Sections.{Code, trigger, among}
use swim.Handler.Sections.Calls.{named, by_freshness_code, resolve_and_register_code}
use swim.Handler.Sections.Entries.{request, resolve, code_of}
use swim.Handler.Sections.Pool.{Any, Thread, begins, triggers, Reach, idle, next, running, one_if}
use swim.Handler.Sections.Pool.Sound.{Reach-running}
use swim.Handler.Sections.Runs.{Runs-trans, Runs-look, with_artifact-Runs, Reach-Runs}
use swim.Handler.Sections.Race.{Unbacked, request-Unbacked}
use swim.Handler.Sections.Lost.{Lost, evict-Lost}
use swim.Handler.Sections.Tidy.{Branch, Known, Backed}
use swim.Handler.Sections.Settled.{Branches, Pending, Reach-Settled}

-- The entry of the branch is stale and its artifact cached, so that a request starts a refresh.
abbrev used : State ℕ ℕ ℕ
used = (artifact_get g 8 held).0

stale_lem :
    metadata_get g main held
    ≡ (some (record { artifact_id = 8; head_sha = text "c0ffee"; resolved_at = 0 }), false)
unfolding Metadata.get lookup text_eq ℕ_discrete
stale_lem = refl

used_lem : artifact_get g 8 held ≡ (used, some layered)
unfolding artifact_get Artifact.get lookup ℕ_discrete
used_lem = refl

abbrev refreshing : List (Thread g)
refreshing = (some main, code_of g (resolve main)) ∷ (none, named g main) ∷ []

held-Bounded : Bounded g held
unfolding lookup
held-Bounded = (1, refl, (refl, tt))

reached : Reach g Any held [] (trigger_background_refresh g main used) refreshing
unfolding resolve_and_register_code code_of artifact_get
reached =
    next used (trigger_background_refresh g main used) _ _
      (Reach-Runs g Any held held [] [] [] none (resolve_and_register_code g main) used
        (trigger main (named g main)) (next held held [] _ idle (begins (request main) held [] tt))
        (Runs-trans held held _ _ used _
          (Runs-look held (metadata_get g main) (by_freshness_code g main) _ stale_lem)
          (with_artifact-Runs g 8 (λ _. trigger main (named g main)) _ held used layered used_lem)))
      (triggers [] [] none main (named g main) used refl)

Reach-running_example :
    running g main refreshing
    ≡ one_if (has main (trigger_background_refresh g main used).refresh_active)
Reach-running_example =
    Reach-running g Any held (trigger_background_refresh g main used) refreshing main held-Bounded
      refl reached

Reach-Returns_example : Returns g (
    among
      (trigger_background_refresh g)
      (λ n w. w)
      0
      (code_of g (resolve main))
      (trigger_background_refresh g main used))
Reach-Returns_example =
    Reach-Returns g Any held (trigger_background_refresh g main used) [] ((none, named g main) ∷ [])
      (some main) (code_of g (resolve main)) (λ n w. w) held-Bounded refl reached (λ n w b. b)

-- The artifact of the branch is cached, as another key's, and the branch was not asked for.
abbrev fix : Text
fix = text "branch:fix"

abbrev entry : ArtifactEntry (Layered ℕ) (ℕ × Text)
entry = record { fs = layered; size_bytes = 100; last_access = 0; cleanup = none }

abbrev shared : State ℕ ℕ ℕ
shared = record initial {
  metadata_cache = record { entries = []; ttl = pos 10 };
  artifact_cache = record { entries = (8, entry) ∷ []; max_size = pos 2 };
}

abbrev res : ResolutionResult
res = record {
  pr = none;
  workflow_run = run_of 2;
  artifact = artifact_of 8 false;
  artifact_id = 8;
  target_sha = text "c0ffee";
}

fix_branch : has_prefix fix (text "branch:") ≡ true
unfolding ℕ_discrete
fix_branch = refl

fix_found : resolve_branch remote disk client (trim_prefix fix (text "branch:")) 0 ≡ (3, ok res)
unfolding resolve_branch swim.Prelude.Actions.and_then swim.Prelude.Actions.caught
    swim.Github.Client.get_branch_head_sha swim.Prelude.Actions.wrapped ℕ_discrete
    swim.Github.Client.resolve_artifact_at swim.Github.Client.list_runs
    swim.Github.Client.find_artifact swim.Github.Runs.runs_for_branch swim.Github.Runs.sort_runs
    text_eq trim_prefix swim.Github.Runs.first_wanted
fix_found = refl

fix_absent : lookup fix shared.metadata_cache.entries ≡ none
unfolding lookup
fix_absent = refl

fix_held : lookup 8 shared.artifact_cache.entries ≡ some entry
unfolding lookup ℕ_discrete
fix_held = refl

fix_unregistered : lookup (fs_name fix) shared.file_systems ≡ none
unfolding lookup
fix_unregistered = refl

request-Unbacked_example :
    (u : State ℕ ℕ ℕ) × (c : Code (State ℕ ℕ ℕ) Text) × Unbacked g fix res 3 shared entry fix_branch
      fix_found fix_absent fix_held u c
request-Unbacked_example =
    request-Unbacked g fix res 3 shared entry fix_branch fix_found fix_absent fix_held 10 refl
      fix_unregistered

evict-Lost_example :
    (u : State ℕ ℕ ℕ) × (v : State ℕ ℕ ℕ) × Lost g fix res 3 shared entry fix_branch fix_found
      fix_absent fix_held u v
evict-Lost_example =
    evict-Lost g fix res 3 shared entry fix_branch fix_found fix_absent fix_held 10 refl tt

-- The same where the branch is registered.
abbrev backed : State ℕ ℕ ℕ
backed = record held { file_systems = (fs_name main, layered) ∷ [] }

abbrev stale : MetadataEntry
stale = record { artifact_id = 8; head_sha = text "c0ffee"; resolved_at = 0 }

metadata_get-stale : metadata_get g main backed ≡ (some stale, false)
unfolding Metadata.get lookup text_eq ℕ_discrete
metadata_get-stale = refl

main-Branch : Branch main
unfolding ℕ_discrete
main-Branch = refl

begun_lem :
    Reach g Branches backed [] backed ((none, by_freshness_code g main (some stale, false)) ∷ [])
unfolding resolve_and_register_code code_of
begun_lem =
    Reach-Runs g Branches backed backed [] [] [] none (resolve_and_register_code g main) backed
      (by_freshness_code g main (some stale, false))
      (next backed backed [] _ idle (begins (request main) backed [] main-Branch))
      (Runs-look backed (metadata_get g main) (by_freshness_code g main) _ metadata_get-stale)

main-Backed : Backed g main backed
unfolding lookup text_eq ℕ_discrete fs_name
main-Backed = (_, refl)

only_main : (j : Text) → Known g j backed → Backed g j backed
unfolding lookup
only_main j (m, known) = elim (text_eq.dec j main) [
  | yes same ↦ subst (λ i. Backed g i backed) (sym same) main-Backed
  | no differ ↦ absurd (ground arith)
]

main-Known : Known g main backed
unfolding lookup text_eq ℕ_discrete
main-Known = (_, refl)

Reach-Settled_example :
    Backed g main backed
    ⊎ Pending g main ((none, by_freshness_code g main (some stale, false)) ∷ [])
Reach-Settled_example =
    Reach-Settled g backed backed ((none, by_freshness_code g main (some stale, false)) ∷ []) main
      only_main begun_lem main-Known
