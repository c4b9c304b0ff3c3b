-- ===== src/Github/Tests.antt =====
-- The client against a scripted GitHub.
use swim.Prelude.{
  ℕ, suc, ◌≡◌, ◌≢◌, refl, arith, ℕ_discrete, Bool, true, false, none, [], ◌∷◌, text, text_eq,
  nat_eq, ok,
}
use swim.Prelude.Int.{pos}
use swim.Prelude.Yields.{Yields, Yields-ok}
use mathlib.Core.List.{Perm}
use swim.Github.Url.{join}
use swim.Github.Runs.{newer, insert_run, sort_runs}
use swim.Github.Newest.{Ordered, sort_runs-Ordered}
use swim.Archive.{Disk}
use swim.Github.{GhPullRequest, GhWorkflowRun, GhArtifact}
use swim.Github.Client.{Remote, Settings, resolve_pr, resolve_branch, download_artifact}
use swim.Github.Download.{download_artifact-digest}
use swim.Github.Resolve.{Resolved, resolve_pr-Resolved, resolve_branch-Resolved}

abbrev pub client : Settings
client = record {
  owner = text "gfx-labs";
  repo = text "swim";
  token = text "ghp";
  api_url = text "https://api.github.com";
  workflow = text "ci.yml";
  artifact_name = text "dist";
}

abbrev pub pull : GhPullRequest
pull = record {
  number = 42;
  title = text "Fix";
  state = text "open";
  head_sha = text "c0ffee";
  head_ref = text "fix";
  html_url = [];
}

abbrev pub run_of : ℕ → GhWorkflowRun
run_of id = record {
  id = id;
  status = text "completed";
  conclusion = text "success";
  head_branch = text "fix";
  head_sha = text "c0ffee";
  path = [];
  created_at = text "2024-01-01T00:00:00Z";
  html_url = [];
}

abbrev pub artifact_of : ℕ → Bool → GhArtifact
artifact_of id expired = record {
  id = id;
  name = text "dist";
  size_in_bytes = 100;
  expired = expired;
  digest = [];
  archive_download_url = [];
  workflow_run = none;
}

-- Every body decodes to the same answers; the world is the number of requests so far.
abbrev pub remote : Remote ℕ Unit
remote = record {
  wait = λ s. (s, ok tt);
  send = λ r s. (suc s, ok (record { status_code = 200; content_length = pos 100; body = tt }));
  decode_pull = λ b. ok pull;
  decode_runs = λ b. ok (run_of 1 ∷ run_of 2 ∷ []);
  decode_artifacts = λ b.
      ok (record { total_count = 2; artifacts = artifact_of 7 true ∷ artifact_of 8 false ∷ [] });
  decode_commit_sha = λ b. ok (text "c0ffee");
  url_host = λ url. text "api.github.com";
  temp_dir = text "/tmp";
  join_path = join (text "/");
}

abbrev pub disk : Disk ℕ ℕ Unit ℕ
disk = record {
  mkdir_parents = λ path s. s;
  create = λ path s. (s, ok 1);
  copy_limited = λ f r n s. (s, ok 100);
  close_file = λ f s. (s, none);
  remove = λ path s. s;
  open_file = λ path s. (s, ok 1);
  hash = λ f s. (s, ok (text "00"));
  file_size = λ f s. (s, ok 100);
  zip_reader = λ f n s. (s, ok 5);
}

resolve_pr-Resolved_example :
    Yields (Resolved remote disk client) (resolve_pr remote disk client 42 0)
resolve_pr-Resolved_example = resolve_pr-Resolved remote disk client 42 0

resolve_branch-Resolved_example :
    Yields (Resolved remote disk client) (resolve_branch remote disk client (text "fix") 0)
resolve_branch-Resolved_example = resolve_branch-Resolved remote disk client (text "fix") 0

other_digest : text "sha256:00" ≢ text "sha256:11"
other_digest e = ground arith

-- The disk's files do not have the expected digest.
download_artifact-digest_example :
    Yields (λ _. ⊥) (download_artifact remote disk client 8 (pos 1000) (text "sha256:11") 0)
download_artifact-digest_example =
    download_artifact-digest remote disk client (text "sha256:11") 8 (pos 1000) 0 refl
      (λ f v. Yields-ok _ (text "00") v other_digest)

sort_runs-Ordered_example :
    Ordered (sort_runs (run_of 1 ∷ run_of 2 ∷ []))
    × Perm (run_of 1 ∷ run_of 2 ∷ []) (sort_runs (run_of 1 ∷ run_of 2 ∷ []))
sort_runs-Ordered_example = sort_runs-Ordered (run_of 1 ∷ run_of 2 ∷ [])

-- Of two runs of one second the one with the larger id comes first.
later_first : sort_runs (run_of 1 ∷ run_of 2 ∷ []) ≡ run_of 2 ∷ run_of 1 ∷ []
unfolding sort_runs insert_run newer ℕ_discrete text_eq
later_first = refl
