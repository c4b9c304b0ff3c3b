-- ===== src/Github/Client.antt =====
-- `GithubClient`: its requests, each behind the rate limiter. The limiter, the HTTP client and the
-- JSON decoder are packages that the source calls: a record of calls that pass the state on.
use swim.Prelude.{
  ℕ, not, Option, none, some, List, [], ◌∷◌, ◌++◌, ◌||◌, ◌&&◌, Text, text, text_eq, nat_eq, ◌==◌,
  is_empty, if◌then◌else◌, map, Result, ok, err,
}
use swim.Prelude.Int.{ℤ, pos, ltb_ℤ}
use swim.Prelude.Actions.{Action, ◌>>=◌, return, fail, run, handle, wrap}
use swim.Http.{Header, set, del}
use swim.Config.Decimal.{decimal, decimal_ℤ}
use swim.Archive.{Disk, download_zip_fs, cleanup}
use swim.Github.{GhPullRequest, GhWorkflowRun, GhArtifact, GhArtifactsResponse, ResolutionResult}
use swim.Github.Url.{query_escape, path_escape, split, join}
use swim.Github.Runs.{sort_runs, runs_for_branch, first_wanted}

pub record Settings : Type 0 where
  pub owner : Text
  pub repo : Text
  pub token : Text
  pub api_url : Text
  pub workflow : Text
  pub artifact_name : Text

pub record HttpRequest : Type 0 where
  pub url : Text
  pub header : Header

pub record Response (Body : Type 0) : Type 0 where
  pub status_code : ℕ
  pub content_length : ℤ
  pub body : Body

-- `send` is http.NewRequestWithContext and the client's `Do`, which follows redirects. `url_host` is the host that url.Parse finds, or empty; `temp_dir` and `join_path`
-- are os.TempDir and filepath.Join.
pub record Remote (S Body : Type 0) : Type 0 where
  pub wait : Action S Text Unit
  pub send : HttpRequest → Action S Text (Response Body)
  pub decode_pull : Body → Result Text GhPullRequest
  pub decode_runs : Body → Result Text (List GhWorkflowRun)
  pub decode_artifacts : Body → Result Text GhArtifactsResponse
  pub decode_commit_sha : Body → Result Text Text
  pub url_host : Text → Text
  pub temp_dir : Text
  pub join_path : List Text → Text

unfoldable pub new_request : Text → HttpRequest
new_request url = record { url = url; header = [] }

unfoldable pub set_auth : Text → HttpRequest → HttpRequest
set_auth token r =
    if is_empty token
    then r
    else record r { header = set r.header (text "Authorization") (text "Bearer " ++ token) }

unfoldable pub accept_json : HttpRequest → HttpRequest
accept_json r = record r {
  header = set r.header (text "Accept") (text "application/vnd.github+json");
}

-- What `newGithubClient` has the client do with a request that follows a redirect.
unfoldable pub check_redirect : HttpRequest → List HttpRequest → Result Text HttpRequest
check_redirect r via = ok (record r { header = del r.header (text "Authorization") })

abbrev pub repo_url : Settings → Text
repo_url c = c.api_url ++ text "/repos/" ++ c.owner ++ text "/" ++ c.repo

module _ {S Body Fs Handle : Type 0} (remote : Remote S Body) (disk : Disk S Fs Body Handle)
    (c : Settings) where
  abbrev pub lift : {A : Type 0} → Result Text A → Action S Text A
  lift r s = (s, r)

  unfoldable pub do_json : {A : Type 0} → (Body → Result Text A) → Text → Action S Text A
  do_json decode url = do
    _ ← wrap (λ e. text "rate limited: " ++ e) remote.wait
    resp ← remote.send (accept_json (set_auth c.token (new_request url)))
    if resp.status_code == 404
        then fail (text "not found: " ++ url)
        else if (resp.status_code == 403) || (resp.status_code == 429)
        then fail (text "GitHub API rate limited (status " ++ decimal resp.status_code ++ text ")")
        else if not (resp.status_code == 200)
        then fail (
            text "GitHub API error: "
            ++ url
            ++ text " (status "
            ++ decimal resp.status_code
            ++ text ")")
        else lift (decode resp.body)

  unfoldable pub get_pr : ℕ → Action S Text GhPullRequest
  unfolding do_json
  get_pr pr = do_json remote.decode_pull (repo_url c ++ text "/pulls/" ++ decimal pr)

  unfoldable pub get_pr_state : ℕ → Action S Text Text
  get_pr_state pr = do pr_info ← get_pr pr; return pr_info.state

  unfoldable pub get_branch_head_sha : Text → Action S Text Text
  unfolding do_json
  get_branch_head_sha branch =
      let segs = map path_escape (split b'/' branch) in
      do_json remote.decode_commit_sha (repo_url c ++ text "/branches/" ++ join (text "/") segs)

  unfoldable pub list_runs : Text → Action S Text (List GhWorkflowRun)
  unfolding do_json
  list_runs filter = do
    runs ← do_json remote.decode_runs (
        repo_url c
        ++ text "/actions/workflows/"
        ++ path_escape c.workflow
        ++ text "/runs?"
        ++ filter
        ++ text "&per_page=30")
    return (sort_runs runs)

  abbrev pub artifacts_url : GhWorkflowRun → Text
  artifacts_url run =
      repo_url c ++ text "/actions/runs/" ++ decimal run.id ++ text "/artifacts?per_page=100"

  -- The first run with a wanted artifact; a run whose artifacts cannot be listed is skipped.
  abbrev pub pick :
      GhWorkflowRun
      → Action S Text (Option (GhWorkflowRun × GhArtifact))
      → Option GhArtifact
      → Action S Text (Option (GhWorkflowRun × GhArtifact))
  pick run rest (some a) = return (some (run, a))
  pick run rest none = rest

  unfoldable pub find_artifact :
      List GhWorkflowRun → Action S Text (Option (GhWorkflowRun × GhArtifact))
  find_artifact [] = return none
  find_artifact (run ∷ runs) =
      let rest = find_artifact runs in
      handle (λ resp. pick run rest (first_wanted c.artifact_name resp.artifacts)) (λ _. rest)
        (do_json remote.decode_artifacts (artifacts_url run))

  abbrev pub or_else :
      Action S Text (GhWorkflowRun × GhArtifact)
      → Option (GhWorkflowRun × GhArtifact)
      → Action S Text (GhWorkflowRun × GhArtifact)
  or_else rest (some found) = return found
  or_else rest none = rest

  unfoldable pub branch_listing : Text → Action S Text (GhWorkflowRun × GhArtifact)
  branch_listing branch = do
    runs ←
        wrap (λ e. text "list runs for branch " ++ branch ++ text ": " ++ e)
          (list_runs (text "branch=" ++ query_escape branch))
    found ← find_artifact runs
    or_else (fail (text "no artifact '" ++ c.artifact_name ++ text "' found for branch " ++ branch))
        found

  unfoldable pub resolve_artifact_at : Text → Text → Action S Text (GhWorkflowRun × GhArtifact)
  unfolding branch_listing
  resolve_artifact_at branch head_sha =
      if is_empty head_sha
      then branch_listing branch
      else handle
          (λ runs. find_artifact (runs_for_branch runs branch) >>= or_else (branch_listing branch))
          (λ _. branch_listing branch) (list_runs (text "head_sha=" ++ query_escape head_sha))

  unfoldable pub resolve_pr : ℕ → Action S Text ResolutionResult
  resolve_pr pr = do
    pr_info ← wrap (λ e. text "get PR #" ++ decimal pr ++ text ": " ++ e) (get_pr pr)
    found ← resolve_artifact_at pr_info.head_ref pr_info.head_sha
    let (run, artifact) = found in
        return (record {
          pr = some pr_info;
          workflow_run = run;
          artifact = artifact;
          artifact_id = artifact.id;
          target_sha = pr_info.head_sha;
        })

  -- A branch whose head cannot be found is listed without it.
  unfoldable pub resolve_branch : Text → Action S Text ResolutionResult
  resolve_branch branch = do
    head_sha ← handle return (λ _. return []) (get_branch_head_sha branch)
    found ← resolve_artifact_at branch head_sha
    let (run, artifact) = found in
        return (record {
          pr = none;
          workflow_run = run;
          artifact = artifact;
          artifact_id = artifact.id;
          target_sha = head_sha;
        })

  unfoldable pub resolve_artifact : Text → Action S Text (GhWorkflowRun × GhArtifact)
  resolve_artifact branch = do res ← resolve_branch branch; return (res.workflow_run, res.artifact)

  abbrev pub artifact_text : ℕ → Text
  artifact_text artifact_id = text "artifact " ++ decimal artifact_id

  abbrev pub checked :
      ℕ → Text → Fs × ℕ × Text × Handle × Text → Action S Text (Fs × ℕ × Handle × Text)
  checked artifact_id expected (fs, size, digest, f, path) =
      if not (is_empty expected) && not (digest == expected)
      then (λ s. (
        cleanup disk (f, path) s,
        err (
            artifact_text artifact_id
            ++ text " digest mismatch: expected "
            ++ expected
            ++ text ", got "
            ++ digest),
      ))
      else return (fs, size, f, path)

  abbrev pub api_host : Text
  api_host =
      let host = remote.url_host c.api_url in if is_empty host then text "github.com" else host

  -- The path of the temporary file for an artifact.
  unfoldable pub zip_path : ℕ → Text
  zip_path artifact_id = remote.join_path (
      remote.temp_dir
      ∷ text "swim-github-preview"
      ∷ api_host
      ∷ c.owner
      ∷ c.repo
      ∷ c.artifact_name
      ∷ (decimal artifact_id ++ text ".zip")
      ∷ [])

  unfoldable pub extract : ℕ → ℤ → Text → Body → Action S Text (Fs × ℕ × Handle × Text)
  extract artifact_id max_size expected body = do
    got ←
        wrap (λ e. text "extract artifact " ++ decimal artifact_id ++ text ": " ++ e)
          (download_zip_fs disk body max_size (zip_path artifact_id))
    checked artifact_id expected got

  -- The response to a download: by its status, and by its length where that is known.
  unfoldable pub received : ℕ → ℤ → Text → Response Body → Action S Text (Fs × ℕ × Handle × Text)
  received artifact_id max_size expected resp =
      if resp.status_code == 404
      then fail (artifact_text artifact_id ++ text " not found (may have expired)")
      else if not (resp.status_code == 200)
      then fail (
          text "unexpected status "
          ++ decimal resp.status_code
          ++ text " fetching artifact "
          ++ decimal artifact_id)
      else if ltb_ℤ (pos 0) resp.content_length && ltb_ℤ max_size resp.content_length
      then fail (
          artifact_text artifact_id
          ++ text " size "
          ++ decimal_ℤ resp.content_length
          ++ text " exceeds max "
          ++ decimal_ℤ max_size)
      else extract artifact_id max_size expected resp.body

  unfoldable pub download_artifact : ℕ → ℤ → Text → Action S Text (Fs × ℕ × Handle × Text)
  download_artifact artifact_id max_size expected = do
    _ ← wrap (λ e. text "rate limited: " ++ e) remote.wait
    resp ← remote.send (
        set_auth c.token (
          new_request
            (repo_url c ++ text "/actions/artifacts/" ++ decimal artifact_id ++ text "/zip")))
    received artifact_id max_size expected resp
