-- ===== src/Handler/Provision.antt =====
-- `Provision` of handler.go, from the options to the middleware and its first state, with the
-- choice of the error template in templates.go. Caddy's replacer, regexp.Compile, os.ReadFile and
-- html/template are parameters.
pub mod Limits
mod Tests
use swim.Prelude.{
  ℕ, ◌*◌, Bool, true, false, Option, none, some, List, [], ◌∷◌, ◌++◌, Text, text, nat_eq, ◌==◌,
  is_empty, Result, ok, err, ◌>>=◌, if◌then◌else◌,
}
use swim.Prelude.Int.{ℤ, pos, is_zero_ℤ, ltb_ℤ}
use swim.Archive.{Disk}
use swim.Cache.Metadata.{new_metadata_cache}
use swim.Cache.Artifact.{new_artifact_cache}
use swim.Config.Options.{Options}
use swim.Github.Client.{Remote}
use swim.Handler.{GithubPreview, State}

abbrev pub seconds : ℕ → ℤ
seconds n = pos (n * 1_000_000_000)

abbrev pub megabytes : ℕ → ℤ
megabytes n = pos (n * (1024 * 1024))

abbrev pub or_text : Text → Text → Text
or_text v default = if is_empty v then default else v

abbrev pub or_number : ℤ → ℤ → ℤ
or_number v default = if is_zero_ℤ v then default else v

-- An option that is empty or zero is not set.
unfoldable pub with_defaults : Options → Options
with_defaults g = record g {
  artifact_name = or_text g.artifact_name (text "dist");
  artifact_type = or_text g.artifact_type (text ".zip");
  work_dir = or_text g.work_dir (text "/");
  api_url = or_text g.api_url (text "https://api.github.com");
  host_re = or_text g.host_re (text "^pr-(.+?)\\.(.+)$");
  metadata_ttl = or_number g.metadata_ttl (seconds 120);
  max_artifacts = or_number g.max_artifacts (pos 50);
  max_artifact_size = or_number g.max_artifact_size (megabytes 100);
  api_path = or_text g.api_path (text "/.well-known/github-preview");
  prune_interval = or_number g.prune_interval (seconds (6 * 3600));
  read_cache_size = or_number g.read_cache_size (megabytes 10);
}

-- What stands before the first slash and behind it: strings.SplitN with a limit of 2.
abbrev pub with_first : ℕ → Option (Text × Text) → Option (Text × Text)
with_first c none = none
with_first c (some (s, t)) = some (c ∷ s, t)

unfoldable pub split_slash : Text → Option (Text × Text)
split_slash [] = none
split_slash (c ∷ s) =
    let rest = with_first c (split_slash s) in if c == b'/' then some ([], s) else rest

abbrev pub both_named : Option (Text × Text) → Result Text (Text × Text)
both_named (some (c ∷ owner, d ∷ name)) = ok (c ∷ owner, d ∷ name)
both_named _ = err (text "github_preview: repo must be in 'owner/repo' format")

unfoldable pub repo_parts : Text → Result Text (Text × Text)
unfolding split_slash
repo_parts repo =
    if is_empty repo
    then err (text "github_preview: repo is required")
    else both_named (split_slash repo)

abbrev pub default_error_template : Text
default_error_template = text "preview not available{{if .Host}} ({{.Host}}){{end}}: {{.Error}}\n"

abbrev pub need_workflow : Options → Result Text Unit
need_workflow g =
    if is_empty g.workflow then err (text "github_preview: workflow is required") else ok tt

unfoldable pub wrapped : {A : Type 0} → Text → Result Text A → Result Text A
wrapped prefix (ok a) = ok a
wrapped prefix (err e) = err (prefix ++ e)

pub record Outside (S Body Fs Handle Template : Type 0) : Type 0 where
  pub remote : Remote S Body
  pub disk : Disk S Fs Body Handle
  pub clock : S → ℕ
  pub base_path_fs : Fs → Text → Fs
  pub replace_all : Text → Text
  pub compile : Text → Result Text (Text → List Text)
  pub read_file : Text → Result Text Text
  pub parse_template : Text → Result Text Template

pub record Provisioned (S Body Fs Handle Template : Type 0) : Type 0 where
  pub options : Options
  pub preview : GithubPreview S Body Fs Handle
  pub state : State S Fs Handle
  pub template : Template

-- time.NewTicker panics where its interval is not positive.
abbrev pub ticker_panics : Options → Bool
ticker_panics g = ltb_ℤ g.prune_interval (pos 1)

module _ {S Body Fs Handle Template : Type 0} (o : Outside S Body Fs Handle Template) where
  unfoldable pub resolve_options : Options → Options
  resolve_options g = record g {
    repo = o.replace_all g.repo;
    token = o.replace_all g.token;
    api_key = o.replace_all g.api_key;
    api_url = o.replace_all g.api_url;
    error_template_file = o.replace_all g.error_template_file;
  }

  -- The file, else the inline template, else the default.
  unfoldable pub new_template_renderer : Text → Text → Result Text Template
  new_template_renderer inline_template template_file = do
    source ←
        if is_empty template_file
        then ok (or_text inline_template default_error_template)
        else o.read_file template_file
    o.parse_template source

  abbrev pub preview_of :
      Options → Text × Text → (Text → List Text) → GithubPreview S Body Fs Handle
  preview_of g (owner, repo_name) find_submatch = record {
    remote = o.remote;
    disk = o.disk;
    client = record {
      owner = owner;
      repo = repo_name;
      token = g.token;
      api_url = g.api_url;
      workflow = g.workflow;
      artifact_name = g.artifact_name;
    };
    clock = o.clock;
    base_path_fs = o.base_path_fs;
    find_submatch = find_submatch;
    work_dir = g.work_dir;
    max_artifact_size = g.max_artifact_size;
    stale_while_revalidate = g.stale_while_revalidate;
    max_artifact_age = g.max_artifact_age;
    read_cache_size = g.read_cache_size;
    api_path = g.api_path;
  }

  abbrev pub first_state : Options → S → State S Fs Handle
  first_state g s = record {
    metadata_cache = new_metadata_cache g.metadata_ttl;
    artifact_cache = new_artifact_cache g.max_artifacts;
    file_systems = [];
    refresh_active = [];
    outer = s;
  }

  -- `go g.runPruner()`: its ticker panics, which takes the server down, where the interval is not
  -- positive. `none` stands for that.
  abbrev pub run_pruner :
      Options
      → Provisioned S Body Fs Handle Template
      → Option (Provisioned S Body Fs Handle Template)
  run_pruner g p = if ticker_panics g then none else some p

  unfoldable pub provision :
      Options → S → Result Text (Option (Provisioned S Body Fs Handle Template))
  unfolding with_defaults repo_parts resolve_options new_template_renderer
  provision options s = do
    let resolved = resolve_options options
    parts ← repo_parts resolved.repo
    _ ← need_workflow resolved
    let g = with_defaults resolved
    find_submatch ← wrapped (text "github_preview: invalid host_re: ") (o.compile g.host_re)
    template ←
        wrapped (text "github_preview: error template: ")
          (new_template_renderer g.error_template g.error_template_file)
    ok (
        run_pruner g (record {
          options = g;
          preview = preview_of g parts find_submatch;
          state = first_state g s;
          template = template;
        }))
