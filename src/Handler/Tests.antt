-- ===== src/Handler/Tests.antt =====
-- The middleware at concrete hosts and states.

use swim.Prelude.{
  ℕ, zero, suc, ◌-◌, ◌<◌, ◌^◌, ◌≡◌, ◌≢◌, trim_prefix, refl, Bool, true, false, Option, none, some,
  List, [], ◌∷◌, ◌++◌, Text, text, text_eq, nat_eq, has_prefix, ◌==◌, Result, ok, err, arith,
  ℕ_discrete,
}
use swim.Prelude.Int.{pos}
use swim.Cache.Metadata.{MetadataEntry, new_metadata_cache}
use swim.Config.Options.{Options, zero_options}
use swim.Handler.Debug.{handle_debug, Shown, handle_debug-Shown}
use swim.Cache.Artifact.{ArtifactEntry, new_artifact_cache}
use swim.Config.{strconv_atoi, atoi, magnitude, digits_value}
use swim.Config.Decimal.{decimal}
use swim.Github.Client.{resolve_branch}
use swim.Github.Tests.{client, remote, disk}
use swim.Handler.{GithubPreview, Layered, State, evict_key, caught, failed, outside}
use swim.Handler.Aligned.{Has}
use swim.Handler.Api.{ApiRequest, Decode, request_key, evict_request_key}
use swim.Lru.{new_lru_cache_fs}
use swim.Prelude.Dict.{lookup}
use swim.Handler.Available.{Held, Served, branch-Served}
use swim.Handler.Key.{before_colon, key_of, extract_key}
use swim.Handler.Key.Hosts.{extract_key-port, key_of-request_key}
use swim.Handler.Resolve.{resolve_and_register, full_resolve, resolve_number, settle}
use swim.Handler.Registered.{fs_name, Registered}
use swim.Handler.Registered.Reach.{stay, started, started-Registered, Steps-served}

-- The group of a host is what stands before its first dot.
abbrev pub g : GithubPreview ℕ Unit ℕ ℕ
g = record {
  remote = remote;
  disk = disk;
  client = client;
  clock = λ s. s;
  base_path_fs = λ fs wd. fs;
  find_submatch = λ host. host ∷ host ∷ [];
  work_dir = [];
  max_artifact_size = pos 1000;
  stale_while_revalidate = true;
  max_artifact_age = pos 0;
  read_cache_size = pos 1000;
  api_path = text "/api";
}

abbrev pub initial : State ℕ ℕ ℕ
initial = started g (new_metadata_cache (pos 10)) (new_artifact_cache (pos 2)) 0

abbrev pub pull : Text
pull = text "pr:42"

initial-Registered : Registered g initial
initial-Registered = started-Registered g (pos 10) (new_artifact_cache (pos 2)) 0

no_colon : before_colon (text "pr-42") ≡ none
unfolding before_colon ℕ_discrete
no_colon = refl

no_colon_port : before_colon (text "8080") ≡ none
unfolding before_colon ℕ_discrete
no_colon_port = refl

no_number : strconv_atoi (text "main") ≡ none
unfolding strconv_atoi atoi magnitude digits_value ℕ_discrete
no_number = refl

extract_key-port_example :
    extract_key g.find_submatch (text "pr-42" ++ text ":8080")
    ≡ extract_key g.find_submatch (text "pr-42")
extract_key-port_example =
    extract_key-port g.find_submatch (text "pr-42") (text "8080") no_colon no_colon_port

named : text "main" ≢ []
named e = ground arith

key_of-request_key_example :
    (key_of (decimal 42) ≡ request_key (record { pr = pos 42; branch = []; artifact_id = 0 }))
    × (strconv_atoi (trim_prefix (key_of (decimal 42)) (text "pr:")) ≡ some 42)
    × (key_of (text "main")
        ≡ request_key (record { pr = pos 7; branch = text "main"; artifact_id = 0 }))
    × (evict_request_key (record { pr = pos 42; branch = [] }) ≡ key_of (decimal 42))
    × (evict_request_key (record { pr = pos 7; branch = text "main" }) ≡ key_of (text "main"))
key_of-request_key_example =
    key_of-request_key 42 0 (text "main") (pos 7) (omega arith) named no_number

-- The first request: one pull request, its runs, its artifacts and a download.
abbrev state_or_initial : Option (State ℕ ℕ ℕ × Result Text Text) → State ℕ ℕ ℕ
state_or_initial none = initial
state_or_initial (some (w, r)) = w

abbrev after : State ℕ ℕ ℕ
after = state_or_initial (resolve_and_register g pull initial)

first_request : resolve_and_register g pull initial ≡ some (after, ok (fs_name pull))
unfolding resolve_and_register swim.Cache.Metadata.get swim.Prelude.Dict.lookup new_metadata_cache
    swim.Handler.Resolve.resolve_now caught full_resolve ℕ_discrete strconv_atoi
    swim.Prelude.trim_prefix outside swim.Github.Client.resolve_pr swim.Prelude.Actions.and_then
    swim.Prelude.Actions.wrapped swim.Github.Client.get_pr swim.Github.Client.resolve_artifact_at
    swim.Prelude.Actions.caught swim.Github.Client.list_runs swim.Archive.cleanup
    swim.Archive.download_to_file swim.Archive.download_zip_fs swim.Archive.hash_file
    swim.Archive.open_zip_fs swim.Cache.Artifact.get swim.Cache.Artifact.make_room
    swim.Cache.Artifact.set swim.Cache.Metadata.set decimal swim.Config.Decimal.decimal_ℤ
    swim.Config.Decimal.print_digits atoi digits_value magnitude swim.Github.Client.branch_listing
    swim.Github.Client.do_json swim.Github.Client.download_artifact swim.Github.Client.extract
    swim.Github.Client.zip_path swim.Github.Client.received swim.Github.Client.find_artifact
    swim.Github.Runs.first_wanted swim.Github.Runs.insert_run swim.Github.Runs.newer
    swim.Github.Runs.runs_for_branch swim.Github.Runs.sort_runs swim.Github.Url.path_escape
    swim.Github.Url.query_escape swim.Github.Url.unreserved swim.Handler.Resolve.download_and_cache
    swim.Handler.Resolve.keep_download swim.Handler.Resolve.point settle
    swim.Handler.Resolve.use_artifact swim.Handler.Resolve.with_artifact swim.Handler.artifact_get
    swim.Handler.metadata_set swim.Handler.register_fs swim.Handler.run_cleanups
    swim.Lru.new_lru_cache_fs text_eq swim.Prelude.Dict.insert new_artifact_cache fs_name
first_request = refl

Steps-served_example : (fs_name pull ≡ fs_name pull) × Has (fs_name pull) after.file_systems
Steps-served_example =
    Steps-served g (pos 10) (new_artifact_cache (pos 2)) 0 initial after pull (fs_name pull)
      (stay initial) first_request

-- GitHub is down, and the entry of the branch is stale, but its artifact is cached.
abbrev down : GithubPreview ℕ Unit ℕ ℕ
down = record g {
  stale_while_revalidate = false;
  remote = record remote { send = λ r s. (suc s, err (text "unreachable")) };
}

abbrev pub main : Text
main = text "branch:main"

abbrev pub layered : Layered ℕ
layered = record { base = 5; cache = new_lru_cache_fs (pos 1000) }

abbrev pub held : State ℕ ℕ ℕ
held = record initial {
  outer = 100;
  metadata_cache = record {
    entries = (main, record { artifact_id = 8; head_sha = text "c0ffee"; resolved_at = 0 }) ∷ [];
    ttl = pos 10;
  };
  artifact_cache = record {
    entries = (8, record { fs = layered; size_bytes = 100; last_access = 0; cleanup = none }) ∷ [];
    max_size = pos 2;
  };
}

held-Held : Held down main held
unfolding swim.Prelude.Dict.lookup ℕ_discrete text_eq
held-Held = (_, refl, (_, refl))

main_branch : has_prefix main (text "branch:") ≡ true
unfolding ℕ_discrete
main_branch = refl

branch-Served_example : Served down (resolve_and_register down main held)
branch-Served_example = branch-Served down main held main_branch held-Held

-- A disk whose zip files differ: each is named by the time of its download.
abbrev stamped : GithubPreview ℕ Unit ℕ ℕ
stamped = record g { disk = record disk { zip_reader = λ f n s. (suc s, ok s) } }

abbrev requested : Text → State ℕ ℕ ℕ → State ℕ ℕ ℕ
requested key w = state_or_initial (resolve_and_register stamped key w)

-- A pull request and its branch share an artifact; the pull request's preview is evicted and
-- asked for again, then the branch's.
abbrev shared : State ℕ ℕ ℕ
shared = requested (text "branch:fix") (
    requested pull
      (evict_key stamped pull (requested (text "branch:fix") (requested pull initial))))

abbrev base_of : Option (Layered ℕ) → ℕ
base_of none = 0
base_of (some l) = l.base

abbrev fs_of : Option (ArtifactEntry (Layered ℕ) (ℕ × Text)) → ℕ
fs_of none = 0
fs_of (some e) = e.fs.base

-- The branch is served from the zip file of the first download, which has been removed, while
-- the artifact cache holds that of the second.
registered_base : base_of (lookup (fs_name (text "branch:fix")) shared.file_systems) ≡ 4
unfolding resolve_and_register swim.Cache.Metadata.get swim.Prelude.Dict.lookup new_metadata_cache
    swim.Handler.Resolve.resolve_now caught full_resolve ℕ_discrete strconv_atoi
    swim.Prelude.trim_prefix outside swim.Github.Client.resolve_pr swim.Prelude.Actions.and_then
    swim.Prelude.Actions.wrapped swim.Github.Client.get_pr swim.Github.Client.resolve_artifact_at
    swim.Prelude.Actions.caught swim.Github.Client.list_runs swim.Archive.cleanup
    swim.Archive.download_to_file swim.Archive.download_zip_fs swim.Archive.hash_file
    swim.Archive.open_zip_fs swim.Cache.Artifact.get swim.Cache.Artifact.make_room
    swim.Cache.Artifact.set swim.Cache.Metadata.set decimal swim.Config.Decimal.decimal_ℤ
    swim.Config.Decimal.print_digits atoi digits_value magnitude swim.Github.Client.branch_listing
    swim.Github.Client.do_json swim.Github.Client.download_artifact swim.Github.Client.extract
    swim.Github.Client.zip_path swim.Github.Client.received swim.Github.Client.find_artifact
    swim.Github.Runs.first_wanted swim.Github.Runs.insert_run swim.Github.Runs.newer
    swim.Github.Runs.runs_for_branch swim.Github.Runs.sort_runs swim.Github.Url.path_escape
    swim.Github.Url.query_escape swim.Github.Url.unreserved swim.Handler.Resolve.download_and_cache
    swim.Handler.Resolve.keep_download swim.Handler.Resolve.point settle
    swim.Handler.Resolve.use_artifact swim.Handler.Resolve.with_artifact swim.Handler.artifact_get
    swim.Handler.metadata_set swim.Handler.register_fs swim.Handler.run_cleanups
    swim.Lru.new_lru_cache_fs text_eq swim.Prelude.Dict.insert new_artifact_cache fs_name
    swim.Cache.Artifact.evict swim.Cache.Metadata.evict swim.Handler.artifact_evict evict_key
    swim.Handler.metadata_evict swim.Handler.unregister_fs swim.Prelude.Dict.erase resolve_branch
    swim.Github.Client.get_branch_head_sha swim.Github.Url.split swim.Github.Url.join
registered_base = refl

cached_base : fs_of (lookup 8 shared.artifact_cache.entries) ≡ 12
unfolding resolve_and_register swim.Cache.Metadata.get swim.Prelude.Dict.lookup new_metadata_cache
    swim.Handler.Resolve.resolve_now caught full_resolve ℕ_discrete strconv_atoi
    swim.Prelude.trim_prefix outside swim.Github.Client.resolve_pr swim.Prelude.Actions.and_then
    swim.Prelude.Actions.wrapped swim.Github.Client.get_pr swim.Github.Client.resolve_artifact_at
    swim.Prelude.Actions.caught swim.Github.Client.list_runs swim.Archive.cleanup
    swim.Archive.download_to_file swim.Archive.download_zip_fs swim.Archive.hash_file
    swim.Archive.open_zip_fs swim.Cache.Artifact.get swim.Cache.Artifact.make_room
    swim.Cache.Artifact.set swim.Cache.Metadata.set decimal swim.Config.Decimal.decimal_ℤ
    swim.Config.Decimal.print_digits atoi digits_value magnitude swim.Github.Client.branch_listing
    swim.Github.Client.do_json swim.Github.Client.download_artifact swim.Github.Client.extract
    swim.Github.Client.zip_path swim.Github.Client.received swim.Github.Client.find_artifact
    swim.Github.Runs.first_wanted swim.Github.Runs.insert_run swim.Github.Runs.newer
    swim.Github.Runs.runs_for_branch swim.Github.Runs.sort_runs swim.Github.Url.path_escape
    swim.Github.Url.query_escape swim.Github.Url.unreserved swim.Handler.Resolve.download_and_cache
    swim.Handler.Resolve.keep_download swim.Handler.Resolve.point settle
    swim.Handler.Resolve.use_artifact swim.Handler.Resolve.with_artifact swim.Handler.artifact_get
    swim.Handler.metadata_set swim.Handler.register_fs swim.Handler.run_cleanups
    swim.Lru.new_lru_cache_fs text_eq swim.Prelude.Dict.insert new_artifact_cache fs_name
    swim.Cache.Artifact.evict swim.Cache.Metadata.evict swim.Handler.artifact_evict evict_key
    swim.Handler.metadata_evict swim.Handler.unregister_fs swim.Prelude.Dict.erase resolve_branch
    swim.Github.Client.get_branch_head_sha swim.Github.Url.split swim.Github.Url.join
cached_base = refl

-- The management API is asked for the status, and asked to evict.
abbrev decode : Decode
decode = record {
  refresh_body = λ body. none;
  evict_body = λ body. some (record { pr = pos 42; branch = [] });
}

abbrev evict_request : ApiRequest
evict_request = record {
  method = text "DELETE";
  path = text "/api/refresh";
  provided_key = text "key";
  body = [];
}

abbrev an_hour : Options
an_hour = record zero_options { repo = text "a/b"; metadata_ttl = pos 3600000000000 }

-- Two and a half seconds after the entry was resolved
abbrev resolved : MetadataEntry
resolved = record { artifact_id = 7; head_sha = text "c0ffee"; resolved_at = 0 }

abbrev later : State ℕ ℕ ℕ
later = record initial {
  metadata_cache = record { entries = (pull, resolved) ∷ []; ttl = pos 3600000000000 };
  outer = 2500000000;
}

entry_lem : lookup pull later.metadata_cache.entries ≡ some resolved
unfolding lookup text_eq ℕ_discrete
entry_lem = refl

handle_debug-Shown_example :
    ((handle_debug g an_hour pull later).cache.artifact_id ≡ 7)
    × ((handle_debug g an_hour pull later).cache.head_sha ≡ text "c0ffee")
    × Shown g an_hour (pos 3600000000000) (2500000000 - 0) (handle_debug g an_hour pull later).cache
handle_debug-Shown_example = handle_debug-Shown g an_hour pull later resolved entry_lem refl
