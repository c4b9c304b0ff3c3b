-- ===== src/Github.antt =====
-- modules/github_preview/github.go: from a PR or a branch to an artifact, through GitHub's API.
pub mod Url
pub mod Runs
pub mod Newest
pub mod Client
pub mod Resolve
pub mod Confined
pub mod Download
pub mod Tests
use swim.Prelude.{ℕ, Bool, true, false, not, Option, List, Text, text_eq, ◌==◌, ◌&&◌, is_empty}

-- The responses, with the fields that JSON gives them.
pub record GhPullRequest : Type 0 where
  pub number : ℕ
  pub title : Text
  pub state : Text
  pub head_sha : Text
  pub head_ref : Text
  pub html_url : Text

pub record GhWorkflowRun : Type 0 where
  pub id : ℕ
  pub status : Text
  pub conclusion : Text
  pub head_branch : Text
  pub head_sha : Text
  pub path : Text
  pub created_at : Text
  pub html_url : Text

pub record RunRef : Type 0 where
  pub id : ℕ
  pub head_branch : Text
  pub head_sha : Text

pub record GhArtifact : Type 0 where
  pub id : ℕ
  pub name : Text
  pub size_in_bytes : ℕ
  pub expired : Bool
  pub digest : Text
  pub archive_download_url : Text
  pub workflow_run : Option RunRef

pub record GhArtifactsResponse : Type 0 where
  pub total_count : ℕ
  pub artifacts : List GhArtifact

-- The run and the artifact are never nil where a result is built.
pub record ResolutionResult : Type 0 where
  pub pr : Option GhPullRequest
  pub workflow_run : GhWorkflowRun
  pub artifact : GhArtifact
  pub artifact_id : ℕ
  pub target_sha : Text

abbrev pub exact_head : ResolutionResult → Bool
exact_head r = not (is_empty r.target_sha) && (r.workflow_run.head_sha == r.target_sha)
