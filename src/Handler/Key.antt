-- ===== src/Handler/Key.antt =====
-- `extractKey`: the preview that a host names.
pub mod Hosts
use swim.Prelude.{
  ℕ, Bool, true, false, Option, none, some, List, [], ◌∷◌, ◌++◌, Text, text, nat_eq, ◌==◌, ltb,
  length, if◌then◌else◌,
}
use swim.Config.{strconv_atoi}

-- The text up to its last colon, if it has one.
unfoldable pub before_colon : Text → Option Text
before_colon [] = none
before_colon (c ∷ s) = elim (before_colon s) [
  | some t ↦ some (c ∷ t)
  | none ↦ if c == b':' then some [] else none
]

abbrev pub or_whole : Text → Option Text → Text
or_whole host none = host
or_whole host (some t) = t

abbrev pub max_host_length : ℕ
max_host_length = 253

abbrev pub key_kind : Text → Option ℕ → Text
key_kind captured none = text "branch:" ++ captured
key_kind captured (some _) = text "pr:" ++ captured

unfoldable pub key_of : Text → Text
key_of captured = key_kind captured (strconv_atoi captured)

unfoldable pub captured_key : List Text → Option Text
unfolding key_of
captured_key (whole ∷ (c ∷ captured) ∷ groups) = some (key_of (c ∷ captured))
captured_key (whole ∷ [] ∷ groups) = none
captured_key (whole ∷ []) = none
captured_key [] = none

unfoldable pub extract_key : (Text → List Text) → Text → Option Text
unfolding before_colon captured_key
extract_key find_submatch r_host =
    let host = or_whole r_host (before_colon r_host) in
    if ltb max_host_length (length host) then none else captured_key (find_submatch host)
