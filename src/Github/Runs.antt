-- ===== src/Github/Runs.antt =====
-- The choice among workflow runs: `sort.SliceStable` of `listRuns` as an insertion sort,
-- `runsForBranch`, and the artifacts of one run in `findArtifact`.
use swim.Prelude.{
  Bool, not, Option, none, some, List, [], ◌∷◌, ◌&&◌, Text, text_eq, text_lt, ◌==◌, ltb,
  if◌then◌else◌,
}
use swim.Github.{GhWorkflowRun, GhArtifact}

-- Newest first: by time of creation, then by id.
unfoldable pub newer : GhWorkflowRun → GhWorkflowRun → Bool
newer a b =
    if a.created_at == b.created_at then ltb b.id a.id else text_lt b.created_at a.created_at

-- A run goes in front of the first one that is not newer than it.
unfoldable pub insert_run : GhWorkflowRun → List GhWorkflowRun → List GhWorkflowRun
unfolding newer
insert_run r [] = r ∷ []
insert_run r (s ∷ ss) = let rest = insert_run r ss in if newer s r then s ∷ rest else r ∷ s ∷ ss

unfoldable pub sort_runs : List GhWorkflowRun → List GhWorkflowRun
unfolding insert_run
sort_runs [] = []
sort_runs (r ∷ rs) = insert_run r (sort_runs rs)

unfoldable pub runs_for_branch : List GhWorkflowRun → Text → List GhWorkflowRun
runs_for_branch [] branch = []
runs_for_branch (r ∷ rs) branch =
    let rest = runs_for_branch rs branch in if r.head_branch == branch then r ∷ rest else rest

abbrev pub wanted : Text → GhArtifact → Bool
wanted artifact_name a = (a.name == artifact_name) && not a.expired

unfoldable pub first_wanted : Text → List GhArtifact → Option GhArtifact
first_wanted artifact_name [] = none
first_wanted artifact_name (a ∷ others) =
    let rest = first_wanted artifact_name others in if wanted artifact_name a then some a else rest
