-- ===== src/Github/Confined.antt =====
-- Where the client's requests go, and what they carry.
pub mod Headers
pub mod Download
mod Tests
use swim.Prelude.{
  ℕ, ◌≡◌, refl, sym, ap, ◌∙◌, Bool, true, false, not, Option, none, some, List, [], ◌∷◌, ◌++◌, ◌||◌,
  ◌&&◌, Text, text, text_eq, nat_eq, ◌==◌, is_empty, if◌then◌else◌, map, Result, ok, err,
  ℕ_discrete,
}
use mathlib.Core.List.{append-nil, append_assoc}
use swim.Prelude.Int.{ℤ, pos, ltb_ℤ}
use swim.Prelude.Actions.{Action, and_then, caught, wrapped, run, return, handle, wrap, ◌>>=◌, fail}
use swim.Prelude.Dict.{lookup}
use swim.Http.{Header, get, set, get-set, canonical}
use swim.Config.Decimal.{decimal, decimal_ℤ}
use swim.Archive.{
  Disk, copy_and_close, finish_hash, close, closed, cleanup, download_to_file, hash_file,
  open_zip_fs, download_zip_fs,
}
use swim.Github.{GhWorkflowRun, GhArtifact, ResolutionResult}
use swim.Github.Url.{query_escape, path_escape, split, join}
use swim.Github.Runs.{first_wanted, runs_for_branch}
use swim.Github.Client.{
  Settings, Remote, Response, HttpRequest, new_request, set_auth, accept_json, repo_url, do_json,
  get_pr, get_pr_state, get_branch_head_sha, list_runs, artifacts_url, pick, find_artifact, or_else,
  branch_listing, resolve_artifact_at, resolve_pr, resolve_branch, checked, extract, received,
  download_artifact, zip_path,
}
use swim.Github.Confined.Headers.{Allowed, get-set_auth, url-set_auth, get-accept_json}

-- A claim about the state that a call keeps.
abbrev pub Keeps : {S A : Type 0} → (S → Type 0) → Action S Text A → Type 0
Keeps I m = (s : _) → I s → I (m s).0

module _ {S : Type 0} (I : S → Type 0) where
  pub and_then-Keeps :
      {A B : Type 0} (f : A → Action S Text B) (r : S × Result Text A)
      → I r.0
      → ((a : A) → Keeps I (f a))
      → I (and_then f r).0
  unfolding and_then
  and_then-Keeps f (s, ok a) k on = on a s k
  and_then-Keeps f (s, err e) k on = k

  pub caught-Keeps :
      {A B : Type 0} (f : A → Action S Text B) (h : Text → Action S Text B) (r : S × Result Text A)
      → I r.0
      → ((a : A) → Keeps I (f a))
      → ((e : Text) → Keeps I (h e))
      → I (caught f h r).0
  unfolding caught
  caught-Keeps f h (s, ok a) k on_ok on_err = on_ok a s k
  caught-Keeps f h (s, err e) k on_ok on_err = on_err e s k

  pub wrapped-Keeps :
      {A : Type 0} (f : Text → Text) (r : S × Result Text A) → I r.0 → I (wrapped f r).0
  unfolding wrapped
  wrapped-Keeps f (s, ok a) k = k
  wrapped-Keeps f (s, err e) k = k

  pub if-Keeps :
      {A : Type 0} (b : Bool) (m n : Action S Text A)
      → Keeps I m
      → Keeps I n
      → Keeps I (if b then m else n)
  if-Keeps true m n km kn = km
  if-Keeps false m n km kn = kn

module _ {S Body Fs Handle : Type 0} (remote : Remote S Body) (disk : Disk S Fs Body Handle)
    (c : Settings) (I : S → Type 0) where
  -- The limiter, the disk, and each request that is allowed keep the claim.
  pub record Outside : Type 0 where
    pub wait : Keeps I remote.wait
    pub send : (r : HttpRequest) → Allowed c r → Keeps I (remote.send r)
    pub mkdir_parents : (path : Text) (s : S) → I s → I (disk.mkdir_parents path s)
    pub create : (path : Text) → Keeps I (disk.create path)
    pub copy_limited : (f : Handle) (r : Body) (n : ℤ) → Keeps I (disk.copy_limited f r n)
    pub close_file : (f : Handle) (s : S) → I s → I (disk.close_file f s).0
    pub remove : (path : Text) (s : S) → I s → I (disk.remove path s)
    pub open_file : (path : Text) → Keeps I (disk.open_file path)
    pub hash : (f : Handle) → Keeps I (disk.hash f)
    pub file_size : (f : Handle) → Keeps I (disk.file_size f)
    pub zip_reader : (f : Handle) (n : ℕ) → Keeps I (disk.zip_reader f n)

  abbrev pub Below : Text → Type 0
  Below url = (rest : Text) × (url ≡ repo_url c ++ rest)

  pub repo-Below : Below (repo_url c)
  repo-Below = ([], sym (append-nil (repo_url c)))

  pub append-Below : (url s : Text) → Below url → Below (url ++ s)
  append-Below url s (rest, e) = (rest ++ s, ap (λ u. u ++ s) e ∙ append_assoc (repo_url c) rest s)

  api-Allowed :
      (url : Text) → Below url → Allowed c (accept_json (set_auth c.token (new_request url)))
  unfolding accept_json
  api-Allowed url (rest, e) = record {
    below = (rest, url-set_auth c.token url ∙ e);
    authorized = get-accept_json (set_auth c.token (new_request url)) ∙ get-set_auth c.token url;
  }

  pub zip-Allowed : (url : Text) → Below url → Allowed c (set_auth c.token (new_request url))
  zip-Allowed url (rest, e) = record {
    below = (rest, url-set_auth c.token url ∙ e);
    authorized = get-set_auth c.token url;
  }

  module _ (o : Outside) where
    do_json-Keeps :
        {A : Type 0} (decode : Body → Result Text A) (url : Text)
        → Below url
        → Keeps I (do_json remote disk c decode url)
    unfolding do_json
    do_json-Keeps decode url below s k =
        and_then-Keeps I _ _ (wrapped-Keeps I _ (remote.wait s) (o.wait s k)) (λ _ v kv.
          and_then-Keeps I _ _ (o.send _ (api-Allowed url below) v kv) (λ resp.
            if-Keeps I (resp.status_code == 404) _ _ (λ u ku. ku)
              (if-Keeps I ((resp.status_code == 403) || (resp.status_code == 429)) _ _ (λ u ku. ku)
                (if-Keeps I (not (resp.status_code == 200)) _ _ (λ u ku. ku) (λ u ku. ku)))))

    get_pr-Keeps : (n : ℕ) → Keeps I (get_pr remote disk c n)
    unfolding get_pr
    get_pr-Keeps n = do_json-Keeps _ _ (append-Below _ _ (append-Below _ _ repo-Below))

    pub get_pr_state-Keeps : (n : ℕ) → Keeps I (get_pr_state remote disk c n)
    unfolding get_pr_state
    get_pr_state-Keeps n s k = and_then-Keeps I _ _ (get_pr-Keeps n s k) (λ pr u ku. ku)

    get_branch_head_sha-Keeps : (b : Text) → Keeps I (get_branch_head_sha remote disk c b)
    unfolding get_branch_head_sha
    get_branch_head_sha-Keeps b = do_json-Keeps _ _ (append-Below _ _ (append-Below _ _ repo-Below))

    list_runs-Keeps : (filter : Text) → Keeps I (list_runs remote disk c filter)
    unfolding list_runs
    list_runs-Keeps filter s k =
        and_then-Keeps I _ _
          (do_json-Keeps _ _
            (append-Below _ _ (
              append-Below _ _ (append-Below _ _ (append-Below _ _ (append-Below _ _ repo-Below)))))
            s k)
          (λ runs u ku. ku)

    pick-Keeps :
        (r : GhWorkflowRun) (rest : Action S Text (Option (GhWorkflowRun × GhArtifact)))
        (a : Option GhArtifact)
        → Keeps I rest
        → Keeps I (pick remote disk c r rest a)
    pick-Keeps r rest none k = k
    pick-Keeps r rest (some a) k = λ u ku. ku

    or_else-Keeps :
        (rest : Action S Text (GhWorkflowRun × GhArtifact))
        (a : Option (GhWorkflowRun × GhArtifact))
        → Keeps I rest
        → Keeps I (or_else remote disk c rest a)
    or_else-Keeps rest none k = k
    or_else-Keeps rest (some a) k = λ u ku. ku

    find_artifact-Keeps : (runs : List GhWorkflowRun) → Keeps I (find_artifact remote disk c runs)
    unfolding find_artifact
    find_artifact-Keeps [] = λ s k. k
    find_artifact-Keeps (r ∷ runs) = λ s k.
        caught-Keeps I _ _ _
          (do_json-Keeps _ _ (append-Below _ _ (append-Below _ _ (append-Below _ _ repo-Below))) s
            k)
          (λ resp.
            pick-Keeps r _ (first_wanted c.artifact_name resp.artifacts) (find_artifact-Keeps runs))
          (λ e. find_artifact-Keeps runs)

    branch_listing-Keeps : (b : Text) → Keeps I (branch_listing remote disk c b)
    unfolding branch_listing
    branch_listing-Keeps b s k =
        and_then-Keeps I _ _ (wrapped-Keeps I _ _ (list_runs-Keeps _ s k)) (λ runs v kv.
          and_then-Keeps I _ _ (find_artifact-Keeps runs v kv)
            (λ found. or_else-Keeps _ found (λ u ku. ku)))

    resolve_artifact_at-Keeps : (b sha : Text) → Keeps I (resolve_artifact_at remote disk c b sha)
    unfolding resolve_artifact_at
    resolve_artifact_at-Keeps b sha = if-Keeps I (is_empty sha) _ _ (branch_listing-Keeps b) (λ s k.
        caught-Keeps I _ _ _ (list_runs-Keeps _ s k)
          (λ runs v kv.
            and_then-Keeps I _ _ (find_artifact-Keeps (runs_for_branch runs b) v kv)
              (λ found. or_else-Keeps _ found (branch_listing-Keeps b)))
          (λ e. branch_listing-Keeps b))

    pub resolve_pr-Keeps : (n : ℕ) → Keeps I (resolve_pr remote disk c n)
    unfolding resolve_pr
    resolve_pr-Keeps n s k =
        and_then-Keeps I _ _ (wrapped-Keeps I _ _ (get_pr-Keeps n s k)) (λ pr v kv.
          and_then-Keeps I _ _ (resolve_artifact_at-Keeps pr.head_ref pr.head_sha v kv)
            (λ found u ku. ku))

    pub resolve_branch-Keeps : (b : Text) → Keeps I (resolve_branch remote disk c b)
    unfolding resolve_branch
    resolve_branch-Keeps b s k =
        and_then-Keeps I _ _
          (caught-Keeps I _ _ _ (get_branch_head_sha-Keeps b s k) (λ sha u ku. ku) (λ e u ku. ku))
          (λ sha v kv.
            and_then-Keeps I _ _ (resolve_artifact_at-Keeps b sha v kv) (λ found u ku. ku))
