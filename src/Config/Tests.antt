-- ===== src/Config/Tests.antt =====
-- Numbers and sizes of a configuration.
use swim.Prelude.{
  Option, List, Result, ok, to_lower, [], ◌∷◌, Text, ◌*◌, ◌-◌, ◌^◌, ◌≡◌, refl, none, some, ◌++◌,
  text, arith, ℕ_discrete,
}
use swim.Caddy.Lines.{File, line, last}
use swim.Caddy.Script.{Token, directive, word, entry, Cursor, script}
use swim.Config.Options.{Options, zero_options, unmarshal_caddyfile}
use swim.Caddy.{ConfigError}
use swim.Config.Switch.{
  Reads, done, setting, repo_set, workflow_set, max_artifacts_set, unmarshal-Reads,
}
use swim.Prelude.Int.{ℤ, pos, negsuc, wrap64}
use swim.Config.{strconv_atoi, atoi, magnitude, digits_value, parse_byte_size}
use swim.Config.Decimal.{decimal, decimal_ℤ, accepted, strconv_atoi-decimal_ℤ}
use swim.Config.Size.{gigabytes, megabytes, symbol, factor, parse_byte_size-decimal}

strconv_atoi-decimal_ℤ_example : strconv_atoi (decimal_ℤ (negsuc 41)) ≡ accepted (negsuc 41)
strconv_atoi-decimal_ℤ_example = strconv_atoi-decimal_ℤ (negsuc 41)

-- Signs are read as well: these are numbers of pull requests too.
plus_sign : strconv_atoi (text "+42") ≡ some 42
unfolding strconv_atoi atoi magnitude digits_value ℕ_discrete
plus_sign = refl

minus_zero : strconv_atoi (text "-0") ≡ some 0
unfolding strconv_atoi atoi magnitude digits_value ℕ_discrete
minus_zero = refl

minus : strconv_atoi (text "-1") ≡ none
unfolding strconv_atoi atoi magnitude digits_value ℕ_discrete
minus = refl

parse_byte_size-decimal_example :
    parse_byte_size (decimal 10 ++ symbol megabytes) ≡ some (wrap64 (10 * factor megabytes))
parse_byte_size-decimal_example = parse_byte_size-decimal 10 megabytes (omega arith)

-- 2 ^ 33 GB is 2 ^ 63 bytes, which is read as -2 ^ 63.
wraps : wrap64 (2 ^ 33 * factor gigabytes) ≡ negsuc (2 ^ 63 - 1)
unfolding wrap64
wraps = refl

-- A directive with a block of three lines
abbrev lines : List (Text × Text)
lines =
    (text "repo", text "gfx/swim")
    ∷ (text "Workflow", text "build.yml")
    ∷ (text "max_artifacts", text "3")
    ∷ []

abbrev tokens : List Token
tokens =
    directive (text "github_preview")
    ∷ entry (text "repo")
    ∷ word (text "gfx/swim")
    ∷ entry (text "Workflow")
    ∷ word (text "build.yml")
    ∷ entry (text "max_artifacts")
    ∷ word (text "3")
    ∷ []

abbrev no_duration : Text → Option ℤ
no_duration v = none

lines_File : File script lines ([], tokens)
lines_File = record {
  start = (text "github_preview", _);
  stop = (text "3", []);
  finish = (text "3", []);
  found = refl;
  lines = line (text "repo") (text "gfx/swim") _ _ _ _ _ refl refl refl refl (
      line (text "Workflow") (text "build.yml") _ _ _ _ _ refl refl refl refl
        (line (text "max_artifacts") (text "3") _ _ _ _ _ refl refl refl refl (last _ _ refl)));
  ends = refl;
}

abbrev settings : Result ConfigError Options
settings = ok (record zero_options {
  repo = text "gfx/swim";
  workflow = text "build.yml";
  max_artifacts = pos 3;
})

three : strconv_atoi (text "3") ≡ some 3
unfolding strconv_atoi atoi magnitude digits_value ℕ_discrete
three = refl

lines-Reads : Reads no_duration lines zero_options settings
unfolding to_lower
lines-Reads =
    setting _ _ _ _ _ _ repo_set
      (setting _ _ _ _ _ _ workflow_set (setting _ _ _ _ _ _ (max_artifacts_set 3 three) (done _)))

unmarshal-Reads_example :
    (v : Cursor) × (unmarshal_caddyfile no_duration script 5 zero_options ([], tokens)
      ≡ some (v, settings))
unmarshal-Reads_example =
    unmarshal-Reads no_duration script 5 lines zero_options ([], tokens) settings lines_File
      (omega arith) lines-Reads
