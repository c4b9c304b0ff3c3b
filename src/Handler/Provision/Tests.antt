-- ===== src/Handler/Provision/Tests.antt =====
-- A Caddyfile that is read and provisioned, and a request behind it.
use swim.Prelude.{
  ℕ, zero, suc, ◌≡◌, refl, Bool, true, false, Option, none, some, List, [], ◌∷◌, Text, text,
  text_eq, Result, ok, err, ℕ_discrete, arith,
}
use swim.Prelude.Int.{ℤ, negsuc}
use swim.Prelude.Dict.{lookup}
use swim.Caddy.{ConfigError}
use swim.Caddy.Script.{Token, directive, word, entry, script}
use swim.Config.Options.{Options, zero_options, unmarshal_caddyfile}
use swim.Github.Tests.{remote, disk}
use swim.Handler.{State}
use swim.Handler.Provision.{
  Outside, Provisioned, provision, with_defaults, resolve_options, preview_of, first_state,
  default_error_template,
}
use swim.Handler.Returns.Served.{Backed, none_yet, caddyfile-Answered}
use swim.Handler.Prune.{prune_once}
use swim.Handler.Serve.{Request, Served, serve_http}
use swim.Handler.Api.{Decode}

abbrev tokens : List Token
tokens =
    directive (text "github_preview")
    ∷ entry (text "repo")
    ∷ word (text "a/b")
    ∷ entry (text "workflow")
    ∷ word (text "w")
    ∷ entry (text "max_artifacts")
    ∷ word (text "0")
    ∷ []

abbrev no_duration : Text → Option ℤ
no_duration v = none

abbrev settings : Options
settings = record zero_options { repo = text "a/b"; workflow = text "w" }

-- max_artifacts 0 asks for the default.
settings_read :
    unmarshal_caddyfile no_duration script 5 zero_options ([], tokens)
    ≡ some ((text "0", []), ok settings)
unfolding unmarshal_caddyfile swim.Caddy.each_directive swim.Caddy.turn swim.Caddy.block
    swim.Config.Options.unmarshal_option lookup text_eq swim.Prelude.to_lower ℕ_discrete
    swim.Prelude.Actions.and_then swim.Caddy.arg swim.Config.Options.parsed swim.Config.strconv_atoi
settings_read = refl

abbrev outside : Outside ℕ Unit ℕ ℕ Text
outside = record {
  remote = remote;
  disk = disk;
  clock = λ s. s;
  base_path_fs = λ fs wd. fs;
  replace_all = λ t. t;
  compile = λ re. ok (λ host. host ∷ host ∷ []);
  read_file = λ path. err path;
  parse_template = ok;
}

abbrev defaults : Options
defaults = with_defaults (resolve_options outside settings)

abbrev provisioned : Provisioned ℕ Unit ℕ ℕ Text
provisioned = record {
  options = defaults;
  preview = preview_of outside defaults (text "a", text "b") (λ host. host ∷ host ∷ []);
  state = first_state outside defaults 0;
  template = default_error_template;
}

provisions : provision outside settings 0 ≡ ok (some provisioned)
unfolding provision ℕ_discrete swim.Handler.Provision.wrapped
provisions = refl

-- A negative interval takes the server down.
backwards : provision outside (record settings { prune_interval = negsuc 0 }) 0 ≡ ok none
unfolding provision ℕ_discrete swim.Handler.Provision.wrapped
backwards = refl

-- A pull request's host
abbrev pull : Request
pull = record {
  host = text "pr-42";
  call = record { method = text "GET"; path = text "/"; provided_key = []; body = [] };
}

abbrev decode : Decode
decode = record { refresh_body = λ body. none; evict_body = λ body. none }

-- The pruner has run once.
abbrev idle : State ℕ ℕ ℕ
idle = prune_once provisioned.preview provisioned.state

caddyfile-Answered_example :
    (v : State ℕ ℕ ℕ) × (a : Served) × (serve_http provisioned.preview provisioned.options decode
        pull provisioned.state
      ≡ some (v, ok a))
    × Backed provisioned.preview provisioned.options decode a v
caddyfile-Answered_example =
    caddyfile-Answered outside no_duration script 5 ([], tokens) (text "0", []) settings 0
      provisioned decode provisioned.state pull settings_read provisions
      (none_yet provisioned.state)
