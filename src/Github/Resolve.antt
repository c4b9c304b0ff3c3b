-- ===== src/Github/Resolve.antt =====
-- What `ResolvePR` and `ResolveBranch` find is an artifact that the middleware asked for.
use swim.Prelude.{
  ℕ, ◌≡◌, refl, arith, true, false, Option, none, some, List, [], ◌∷◌, Text, text_eq, Bool-cases,
  inl, inr, is_empty,
}
use swim.Prelude.Actions.{Action}
use swim.Prelude.Yields.{Yields, Yields-ok, Yields-err, Yields-any, and_then-Yields, caught-Yields}
use swim.Archive.{Disk}
use swim.Github.{GhWorkflowRun, GhArtifact, ResolutionResult}
use swim.Github.Runs.{wanted, first_wanted}
use swim.Github.Client.{
  Settings, Remote, find_artifact, pick, or_else, branch_listing, resolve_artifact_at, resolve_pr,
  resolve_branch,
}

-- The name is the configured one, and the artifact has not expired.
abbrev pub Wanted : Text → GhArtifact → Type 0
Wanted artifact_name a = (a.name ≡ artifact_name) × (a.expired ≡ false)

abbrev pub IfSome : {A : Type 0} → (A → Type 0) → Option A → Type 0
IfSome P none = Unit
IfSome P (some a) = P a

wanted-Wanted : (n : Text) (a : GhArtifact) → wanted n a ≡ true → Wanted n a
wanted-Wanted n a h = ground arith

first-Wanted : (n : Text) (found : List GhArtifact) → IfSome (Wanted n) (first_wanted n found)
unfolding first_wanted
first-Wanted n [] = tt
first-Wanted n (a ∷ rest) = elim (Bool-cases (wanted n a)) [
  | inl yes_it ↦ rw yes_it (wanted-Wanted n a yes_it)
  | inr other ↦ rw other (first-Wanted n rest)
]

module _ {S Body Fs Handle : Type 0} (remote : Remote S Body) (disk : Disk S Fs Body Handle)
    (c : Settings) where
  abbrev Pair : GhWorkflowRun × GhArtifact → Type 0
  Pair (run, a) = Wanted c.artifact_name a

  pick-Yields :
      (run : GhWorkflowRun) (rest : Action S Text (Option (GhWorkflowRun × GhArtifact)))
      (o : Option GhArtifact) (s : S)
      → IfSome (Wanted c.artifact_name) o
      → Yields (IfSome Pair) (rest s)
      → Yields (IfSome Pair) (pick remote disk c run rest o s)
  pick-Yields run rest none s h y = y
  pick-Yields run rest (some a) s h y = Yields-ok (IfSome Pair) (some (run, a)) s h

  find-Yields :
      (runs : List GhWorkflowRun) (s : S)
      → Yields (IfSome Pair) (find_artifact remote disk c runs s)
  unfolding find_artifact
  find-Yields [] s = Yields-ok (IfSome Pair) none s tt
  find-Yields (run ∷ runs) s =
      caught-Yields (λ _. Unit) (IfSome Pair) _ _ _ (Yields-any _)
        (λ resp v _.
          pick-Yields run _ (first_wanted c.artifact_name resp.artifacts) v
            (first-Wanted c.artifact_name resp.artifacts) (find-Yields runs v))
        (λ e v. find-Yields runs v)

  or_else-Yields :
      (rest : Action S Text (GhWorkflowRun × GhArtifact)) (o : Option (GhWorkflowRun × GhArtifact))
      (s : S)
      → IfSome Pair o
      → Yields Pair (rest s)
      → Yields Pair (or_else remote disk c rest o s)
  or_else-Yields rest none s h y = y
  or_else-Yields rest (some found) s h y = Yields-ok Pair found s h

  listing-Yields : (branch : Text) (s : S) → Yields Pair (branch_listing remote disk c branch s)
  unfolding branch_listing
  listing-Yields branch s =
      and_then-Yields (λ _. Unit) Pair _ _ (Yields-any _)
        (λ runs v _.
          and_then-Yields (IfSome Pair) Pair _ _ (find-Yields runs v)
            (λ found u y. or_else-Yields _ found u y (Yields-err Pair _ u)))

  resolve_at-Yields :
      (branch head_sha : Text) (s : S)
      → Yields Pair (resolve_artifact_at remote disk c branch head_sha s)
  unfolding resolve_artifact_at
  resolve_at-Yields branch head_sha s = elim (Bool-cases (is_empty head_sha)) [
    | inl unknown ↦ rw unknown (listing-Yields branch s)
    | inr known ↦ rw known (
        caught-Yields (λ _. Unit) Pair _ _ _ (Yields-any _)
          (λ runs v _.
            and_then-Yields (IfSome Pair) Pair _ _ (find-Yields _ v)
              (λ found u y. or_else-Yields _ found u y (listing-Yields branch u)))
          (λ e v. listing-Yields branch v))
  ]

  -- The artifact is wanted, and the id of the result is its id.
  abbrev pub Resolved : ResolutionResult → Type 0
  Resolved res = Wanted c.artifact_name res.artifact × (res.artifact_id ≡ res.artifact.id)

  -- Whatever GitHub answers, a pull request that is resolved without an error is resolved to an
  -- artifact with the configured name that has not expired, under that artifact's id.
  pub resolve_pr-Resolved : (pr : ℕ) (s : S) → Yields Resolved (resolve_pr remote disk c pr s)
  unfolding resolve_pr
  resolve_pr-Resolved pr s =
      and_then-Yields (λ _. Unit) Resolved _ _ (Yields-any _)
        (λ info v _.
          and_then-Yields Pair Resolved _ _ (resolve_at-Yields info.head_ref info.head_sha v)
            (λ (run, a) u y. Yields-ok Resolved _ u (y, refl)))

  -- Whatever GitHub answers, and also where a branch's head cannot be found, a branch that is
  -- resolved without an error is resolved to an artifact with the configured name that has not
  -- expired, under that artifact's id.
  pub resolve_branch-Resolved :
      (branch : Text) (s : S) → Yields Resolved (resolve_branch remote disk c branch s)
  unfolding resolve_branch
  resolve_branch-Resolved branch s =
      and_then-Yields (λ _. Unit) Resolved _ _ (Yields-any _)
        (λ head_sha v _.
          and_then-Yields Pair Resolved _ _ (resolve_at-Yields branch head_sha v)
            (λ (run, a) u y. Yields-ok Resolved _ u (y, refl)))
