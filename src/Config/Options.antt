-- ===== src/Config/Options.antt =====
-- `UnmarshalCaddyfile` of config.go: the options of `github_preview`, as GithubPreview's exported
-- fields hold them. Every option takes one argument, so that its case of the switch is a function
-- of the options and that argument.

use swim.Prelude.{
  ℕ, Bool, false, Option, none, some, [], ◌∷◌, ◌++◌, Text, text, text_eq, ◌==◌, to_lower, Result,
  ok, err,
}
use swim.Prelude.Int.{ℤ, pos}
use swim.Prelude.Dict.{Dict, lookup}
use swim.Prelude.Actions.{Action, ◌>>=◌, fail}
use swim.Caddy.{ConfigError, syntax_err, errf, Dispenser, Reader, arg, each_directive, block, once}
use swim.Config.{strconv_atoi, parse_byte_size}

-- Durations are int64 counts of nanoseconds.
pub record Options : Type 0 where
  pub repo : Text
  pub token : Text
  pub workflow : Text
  pub artifact_name : Text
  pub artifact_type : Text
  pub work_dir : Text
  pub api_url : Text
  pub host_re : Text
  pub metadata_ttl : ℤ
  pub max_artifacts : ℤ
  pub max_artifact_size : ℤ
  pub stale_while_revalidate : Bool
  pub prune_interval : ℤ
  pub max_artifact_age : ℤ
  pub read_cache_size : ℤ
  pub api_path : Text
  pub api_key : Text
  pub error_template : Text
  pub error_template_file : Text

abbrev pub zero_options : Options
zero_options = record {
  repo = [];
  token = [];
  workflow = [];
  artifact_name = [];
  artifact_type = [];
  work_dir = [];
  api_url = [];
  host_re = [];
  metadata_ttl = pos 0;
  max_artifacts = pos 0;
  max_artifact_size = pos 0;
  stale_while_revalidate = false;
  prune_interval = pos 0;
  max_artifact_age = pos 0;
  read_cache_size = pos 0;
  api_path = [];
  api_key = [];
  error_template = [];
  error_template_file = [];
}

abbrev pub Setter : Type 0
Setter = Options → Text → Result ConfigError Options

abbrev pub to_text : (Options → Text → Options) → Setter
to_text f g v = ok (f g v)

-- A value that is parsed: `d.Errf("invalid …: %s", d.Val())` where it cannot be.
unfoldable pub parsed :
    {A : Type 0}
    → Text
    → (Options → A → Options)
    → Options
    → Text
    → Option A
    → Result ConfigError Options
parsed name f g v none = err (errf (text "invalid " ++ name ++ text ": " ++ v))
parsed name f g v (some a) = ok (f g a)

-- time.ParseDuration is a parameter.
module _ (parse_duration : Text → Option ℤ) where
  abbrev pub to_duration : Text → (Options → ℤ → Options) → Setter
  to_duration name f g v = parsed name f g v (parse_duration v)

  abbrev pub to_size : Text → (Options → ℤ → Options) → Setter
  to_size name f g v = parsed name f g v (parse_byte_size v)

  abbrev pub to_max_artifacts : Setter
  to_max_artifacts g v =
      parsed (text "max_artifacts") (λ g n. record g { max_artifacts = pos n }) g v (strconv_atoi v)

  -- The cases of the switch, in its order.
  abbrev pub setters : Dict Text Setter
  setters =
      (text "repo", to_text (λ g v. record g { repo = v }))
      ∷ (text "token", to_text (λ g v. record g { token = v }))
      ∷ (text "workflow", to_text (λ g v. record g { workflow = v }))
      ∷ (text "artifact_name", to_text (λ g v. record g { artifact_name = v }))
      ∷ (text "artifact_type", to_text (λ g v. record g { artifact_type = v }))
      ∷ (text "workdir", to_text (λ g v. record g { work_dir = v }))
      ∷ (text "host_re", to_text (λ g v. record g { host_re = v }))
      ∷ (
        text "metadata_ttl",
        to_duration (text "metadata_ttl") (λ g n. record g { metadata_ttl = n }),
      )
      ∷ (text "max_artifacts", to_max_artifacts)
      ∷ (
        text "max_artifact_size",
        to_size (text "max_artifact_size") (λ g n. record g { max_artifact_size = n }),
      )
      ∷ (
        text "read_cache_size",
        to_size (text "read_cache_size") (λ g n. record g { read_cache_size = n }),
      )
      ∷ (text "api_path", to_text (λ g v. record g { api_path = v }))
      ∷ (text "api_key", to_text (λ g v. record g { api_key = v }))
      ∷ (text "api_url", to_text (λ g v. record g { api_url = v }))
      ∷ (
        text "prune_interval",
        to_duration (text "prune_interval") (λ g n. record g { prune_interval = n }),
      )
      ∷ (
        text "max_artifact_age",
        to_duration (text "max_artifact_age") (λ g n. record g { max_artifact_age = n }),
      )
      ∷ (
        text "stale_while_revalidate",
        to_text (λ g v. record g { stale_while_revalidate = to_lower v == text "true" }),
      )
      ∷ (text "error_template", to_text (λ g v. record g { error_template = v }))
      ∷ (text "error_template_file", to_text (λ g v. record g { error_template_file = v }))
      ∷ []

  module _ {D : Type 0} (dispenser : Dispenser D) where
    abbrev pub set_result : Result ConfigError Options → Action D ConfigError Options
    set_result r d = (d, r)

    abbrev pub apply_setter : Text → Option Setter → Options → Action D ConfigError Options
    apply_setter key none g = fail (syntax_err (text "invalid github_preview option: " ++ key))
    apply_setter key (some f) g = arg dispenser >>= (λ v. set_result (f g v))

    unfoldable pub unmarshal_option : Options → Action D ConfigError Options
    unmarshal_option g d =
        let key = dispenser.val d in apply_setter key (lookup (to_lower key) setters) g d

    unfoldable pub unmarshal_caddyfile : ℕ → Reader D Options
    unmarshal_caddyfile fuel =
        each_directive dispenser fuel (block dispenser fuel (once dispenser unmarshal_option))
