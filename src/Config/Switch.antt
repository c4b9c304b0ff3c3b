-- ===== src/Config/Switch.antt =====
-- What each line of a `github_preview` block is to do, said line by line and apart from the switch
-- of config.go that does it.
use swim.Prelude.{
  ℕ, ◌+◌, ◌<◌, ◌≡◌, ◌≢◌, refl, ap, ◌∙◌, sym, Bool, Option, none, some, List, [], ◌∷◌, ◌==◌, ◌++◌,
  Text, text, text_eq, to_lower, Result, ok, err, ◌>>=◌, length, All, map, ℕ_discrete,
}
use mathlib.Core.Logic.{if_neg}
use swim.Prelude.Int.{ℤ, pos}
use swim.Prelude.Dict.{Dict, lookup}
use swim.Caddy.{ConfigError, syntax_err, errf, Dispenser}
use swim.Caddy.Lines.{File}
use swim.Config.{strconv_atoi, parse_byte_size}
use swim.Config.Options.{Options, setters, parsed, unmarshal_caddyfile}
use swim.Config.Settings.{set_found, set_all, unmarshal-set_all}

abbrev invalid : Text → Text → Result ConfigError Options
invalid name v = err (errf (text "invalid " ++ name ++ text ": " ++ v))

module _ (parse_duration : Text → Option ℤ) (v : Text) (g : Options) where
  -- The option that a name stands for takes its value, which a duration, a size or a number is
  -- read from; `stale_while_revalidate` is set by the word true, in any case.
  pub data Sets : Text → Result ConfigError Options → Type 0 where
    repo_set : Sets (text "repo") (ok (record g { repo = v }))
    token_set : Sets (text "token") (ok (record g { token = v }))
    workflow_set : Sets (text "workflow") (ok (record g { workflow = v }))
    artifact_name_set : Sets (text "artifact_name") (ok (record g { artifact_name = v }))
    artifact_type_set : Sets (text "artifact_type") (ok (record g { artifact_type = v }))
    workdir_set : Sets (text "workdir") (ok (record g { work_dir = v }))
    host_re_set : Sets (text "host_re") (ok (record g { host_re = v }))
    api_path_set : Sets (text "api_path") (ok (record g { api_path = v }))
    api_key_set : Sets (text "api_key") (ok (record g { api_key = v }))
    api_url_set : Sets (text "api_url") (ok (record g { api_url = v }))
    error_template_set : Sets (text "error_template") (ok (record g { error_template = v }))
    error_template_file_set :
        Sets (text "error_template_file") (ok (record g { error_template_file = v }))
    truth_set :
        (b : Bool)
        → b ≡ (to_lower v == text "true")
        → Sets (text "stale_while_revalidate") (ok (record g { stale_while_revalidate = b }))
    metadata_ttl_set :
        (n : ℤ)
        → parse_duration v ≡ some n
        → Sets (text "metadata_ttl") (ok (record g { metadata_ttl = n }))
    metadata_ttl_refused :
        parse_duration v ≡ none → Sets (text "metadata_ttl") (invalid (text "metadata_ttl") v)
    prune_interval_set :
        (n : ℤ)
        → parse_duration v ≡ some n
        → Sets (text "prune_interval") (ok (record g { prune_interval = n }))
    prune_interval_refused :
        parse_duration v ≡ none → Sets (text "prune_interval") (invalid (text "prune_interval") v)
    max_artifact_age_set :
        (n : ℤ)
        → parse_duration v ≡ some n
        → Sets (text "max_artifact_age") (ok (record g { max_artifact_age = n }))
    max_artifact_age_refused :
        parse_duration v ≡ none
        → Sets (text "max_artifact_age") (invalid (text "max_artifact_age") v)
    max_artifact_size_set :
        (n : ℤ)
        → parse_byte_size v ≡ some n
        → Sets (text "max_artifact_size") (ok (record g { max_artifact_size = n }))
    max_artifact_size_refused :
        parse_byte_size v ≡ none
        → Sets (text "max_artifact_size") (invalid (text "max_artifact_size") v)
    read_cache_size_set :
        (n : ℤ)
        → parse_byte_size v ≡ some n
        → Sets (text "read_cache_size") (ok (record g { read_cache_size = n }))
    read_cache_size_refused :
        parse_byte_size v ≡ none
        → Sets (text "read_cache_size") (invalid (text "read_cache_size") v)
    max_artifacts_set :
        (n : ℕ)
        → strconv_atoi v ≡ some n
        → Sets (text "max_artifacts") (ok (record g { max_artifacts = pos n }))
    max_artifacts_refused :
        strconv_atoi v ≡ none → Sets (text "max_artifacts") (invalid (text "max_artifacts") v)

  Sets-set_found :
      (key name : Text) (r : Result ConfigError Options)
      → Sets name r
      → set_found parse_duration key v g (lookup name (setters parse_duration)) ≡ r
  unfolding lookup text_eq ℕ_discrete parsed
  Sets-set_found key _ _ repo_set = refl
  Sets-set_found key _ _ token_set = refl
  Sets-set_found key _ _ workflow_set = refl
  Sets-set_found key _ _ artifact_name_set = refl
  Sets-set_found key _ _ artifact_type_set = refl
  Sets-set_found key _ _ workdir_set = refl
  Sets-set_found key _ _ host_re_set = refl
  Sets-set_found key _ _ api_path_set = refl
  Sets-set_found key _ _ api_key_set = refl
  Sets-set_found key _ _ api_url_set = refl
  Sets-set_found key _ _ error_template_set = refl
  Sets-set_found key _ _ error_template_file_set = refl
  Sets-set_found key _ _ (truth_set b e) =
      ap (λ b. ok (record g { stale_while_revalidate = b })) (sym e)
  Sets-set_found key _ _ (metadata_ttl_set n e) =
      ap (parsed (text "metadata_ttl") (λ g n. record g { metadata_ttl = n }) g v) e
  Sets-set_found key _ _ (metadata_ttl_refused e) =
      ap (parsed (text "metadata_ttl") (λ g n. record g { metadata_ttl = n }) g v) e
  Sets-set_found key _ _ (prune_interval_set n e) =
      ap (parsed (text "prune_interval") (λ g n. record g { prune_interval = n }) g v) e
  Sets-set_found key _ _ (prune_interval_refused e) =
      ap (parsed (text "prune_interval") (λ g n. record g { prune_interval = n }) g v) e
  Sets-set_found key _ _ (max_artifact_age_set n e) =
      ap (parsed (text "max_artifact_age") (λ g n. record g { max_artifact_age = n }) g v) e
  Sets-set_found key _ _ (max_artifact_age_refused e) =
      ap (parsed (text "max_artifact_age") (λ g n. record g { max_artifact_age = n }) g v) e
  Sets-set_found key _ _ (max_artifact_size_set n e) =
      ap (parsed (text "max_artifact_size") (λ g n. record g { max_artifact_size = n }) g v) e
  Sets-set_found key _ _ (max_artifact_size_refused e) =
      ap (parsed (text "max_artifact_size") (λ g n. record g { max_artifact_size = n }) g v) e
  Sets-set_found key _ _ (read_cache_size_set n e) =
      ap (parsed (text "read_cache_size") (λ g n. record g { read_cache_size = n }) g v) e
  Sets-set_found key _ _ (read_cache_size_refused e) =
      ap (parsed (text "read_cache_size") (λ g n. record g { read_cache_size = n }) g v) e
  Sets-set_found key _ _ (max_artifacts_set n e) =
      ap (parsed (text "max_artifacts") (λ g n. record g { max_artifacts = pos n }) g v) e
  Sets-set_found key _ _ (max_artifacts_refused e) =
      ap (parsed (text "max_artifacts") (λ g n. record g { max_artifacts = pos n }) g v) e

abbrev pub option_names : List Text
option_names =
    text "repo"
    ∷ text "token"
    ∷ text "workflow"
    ∷ text "artifact_name"
    ∷ text "artifact_type"
    ∷ text "workdir"
    ∷ text "host_re"
    ∷ text "metadata_ttl"
    ∷ text "max_artifacts"
    ∷ text "max_artifact_size"
    ∷ text "read_cache_size"
    ∷ text "api_path"
    ∷ text "api_key"
    ∷ text "api_url"
    ∷ text "prune_interval"
    ∷ text "max_artifact_age"
    ∷ text "stale_while_revalidate"
    ∷ text "error_template"
    ∷ text "error_template_file"
    ∷ []

lookup-other :
    {A : Type 0} (key : Text) (xs : Dict Text A)
    → All (λ name. key ≢ name) (map (λ x. x.0) xs)
    → lookup key xs ≡ none
unfolding lookup
lookup-other key [] other = refl
lookup-other key ((name, a) ∷ xs) (differ, other) = rw (if_neg _ differ) (lookup-other key xs other)

module _ (parse_duration : Text → Option ℤ) where
  -- What a block of lines is to come to: names are read in any case, each line sets its option, and
  -- the first that has a wrong value or no such name ends it.
  pub data Reads : List (Text × Text) → Options → Result ConfigError Options → Type 0 where
    done : (g : Options) → Reads [] g (ok g)
    setting :
        (key v : Text) (ls : List (Text × Text)) (g h : Options) (r : Result ConfigError Options)
        → Sets parse_duration v g (to_lower key) (ok h)
        → Reads ls h r
        → Reads ((key, v) ∷ ls) g r
    refused :
        (key v : Text) (ls : List (Text × Text)) (g : Options) (e : ConfigError)
        → Sets parse_duration v g (to_lower key) (err e)
        → Reads ((key, v) ∷ ls) g (err e)
    unknown :
        (key v : Text) (ls : List (Text × Text)) (g : Options)
        → All (λ name. to_lower key ≢ name) option_names
        → Reads ((key, v) ∷ ls) g (err (syntax_err (text "invalid github_preview option: " ++ key)))

  Reads-set_all :
      (ls : List (Text × Text)) (g : Options) (r : Result ConfigError Options)
      → Reads ls g r
      → set_all parse_duration ls g ≡ r
  unfolding set_all
  Reads-set_all _ _ _ (done g) = refl
  Reads-set_all _ _ _ (setting key v ls g h r s rest) =
      ap (λ x. x >>= set_all parse_duration ls) (Sets-set_found parse_duration v g key _ _ s)
      ∙ Reads-set_all ls h r rest
  Reads-set_all _ _ _ (refused key v ls g e s) =
      ap (λ x. x >>= set_all parse_duration ls) (Sets-set_found parse_duration v g key _ _ s)
  Reads-set_all _ _ _ (unknown key v ls g other) =
      ap (λ o. set_found parse_duration key v g o >>= set_all parse_duration ls)
        (lookup-other (to_lower key) (setters parse_duration) other)

  -- Of a file of one directive and a block of lines, each an option and one argument, with at least
  -- two rounds more than there are lines: the loop ends, with the options that the lines set, each
  -- under its own name, or with the error of the first line whose value cannot be read or whose
  -- name is no option's.
  pub unmarshal-Reads :
      {D : Type 0} (dispenser : Dispenser D) (fuel : ℕ) (ls : List (Text × Text)) (g : Options)
      (d : D) (r : Result ConfigError Options)
      → File dispenser ls d
      → length ls + 1 < fuel
      → Reads ls g r
      → (v : D) × (unmarshal_caddyfile parse_duration dispenser fuel g d ≡ some (v, r))
  unmarshal-Reads dispenser fuel ls g d r file enough reads =
      let (v, run) = unmarshal-set_all parse_duration dispenser fuel ls g d file enough in
      (v, run ∙ ap (λ r. some (v, r)) (Reads-set_all ls g r reads))
