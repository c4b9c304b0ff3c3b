-- ===== src/Github/Confined/Tests.antt =====
-- The client over a world that records the requests.
use swim.Prelude.{ℕ, none, List, ◌∷◌, Text, text, text_eq, ok, All}
use swim.Prelude.Int.{ℤ, pos}
use swim.Archive.{Disk}
use swim.Github.Client.{
  HttpRequest, Remote, resolve_pr, resolve_branch, get_pr_state, download_artifact,
}
use swim.Github.Tests.{client, remote}
use swim.Github.Confined.{Keeps, Outside}
use swim.Github.Confined.Headers.{Allowed}
use swim.Github.Confined.Download.{client-Keeps}

abbrev recording : Remote (List HttpRequest) Unit
recording = record {
  wait = λ s. (s, ok tt);
  send = λ r s. (r ∷ s, ok (record { status_code = 200; content_length = pos 100; body = tt }));
  decode_pull = remote.decode_pull;
  decode_runs = remote.decode_runs;
  decode_artifacts = remote.decode_artifacts;
  decode_commit_sha = remote.decode_commit_sha;
  url_host = remote.url_host;
  temp_dir = remote.temp_dir;
  join_path = remote.join_path;
}

abbrev quiet : Disk (List HttpRequest) ℕ Unit ℕ
quiet = record {
  mkdir_parents = λ path s. s;
  create = λ path s. (s, ok 1);
  copy_limited = λ f r n s. (s, ok 100);
  close_file = λ f s. (s, none);
  remove = λ path s. s;
  open_file = λ path s. (s, ok 1);
  hash = λ f s. (s, ok (text "00"));
  file_size = λ f s. (s, ok 100);
  zip_reader = λ f n s. (s, ok 5);
}

-- Each request so far is allowed.
abbrev AllAllowed : List HttpRequest → Type 0
AllAllowed = All (Allowed client)

recorded : Outside recording quiet client AllAllowed
recorded = record {
  wait = λ s k. k;
  send = λ r allowed s k. (allowed, k);
  mkdir_parents = λ path s k. k;
  create = λ path s k. k;
  copy_limited = λ f r n s k. k;
  close_file = λ f s k. k;
  remove = λ path s k. k;
  open_file = λ path s k. k;
  hash = λ f s k. k;
  file_size = λ f s k. k;
  zip_reader = λ f n s k. k;
}

client-Keeps_example :
    ((n : ℕ) → Keeps AllAllowed (resolve_pr recording quiet client n))
    × ((branch : Text) → Keeps AllAllowed (resolve_branch recording quiet client branch))
    × ((n : ℕ) → Keeps AllAllowed (get_pr_state recording quiet client n))
    × ((id : ℕ) (max : ℤ) (expected : Text)
        → Keeps AllAllowed (download_artifact recording quiet client id max expected))
client-Keeps_example = client-Keeps recording quiet client AllAllowed recorded
