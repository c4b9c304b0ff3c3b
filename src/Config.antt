-- ===== src/Config.antt =====
-- modules/github_preview/config.go: the numbers of the configuration.
pub mod Decimal
pub mod Size
pub mod Options
pub mod Caddyfile
pub mod Settings
pub mod Switch
mod Tests
use swim.Prelude.{
  ℕ, zero, suc, ◌+◌, ◌-◌, ◌*◌, ◌/◌, ◌%◌, ◌^◌, Bool, true, false, Option, none, some, [], ◌∷◌, ◌++◌,
  ◌&&◌, Text, text, ltb, leb, ◌==◌, nat_eq, has_suffix, trim_suffix, trim_space, trim_both,
  to_upper, if◌then◌else◌,
}
use swim.Prelude.Int.{ℤ, wrap64}
use mathlib.Core.Option

abbrev pub is_digit : ℕ → Bool
is_digit c = leb b'0' c && leb c b'9'

-- The number that a text of digits spells, behind the digits read so far.
unfoldable pub digits_value : ℕ → Text → Option ℕ
digits_value acc [] = some acc
digits_value acc (c ∷ s) =
    let rest = digits_value (acc * 10 + (c - b'0')) s in if is_digit c then rest else none

abbrev pub below : ℕ → Option ℕ → Option ℕ
below limit none = none
below limit (some n) = if ltb n limit then some n else none

-- A magnitude below the limit, from a text that is not empty.
unfoldable pub magnitude : ℕ → Text → Option ℕ
unfolding digits_value
magnitude limit [] = none
magnitude limit (c ∷ s) = below limit (digits_value 0 (c ∷ s))

-- strconv.Atoi, for a 64-bit int: a sign, and whether an error or a magnitude. All that its
-- callers see of an error is that there is one.
unfoldable pub atoi : Text → Option (Bool × ℕ)
unfolding magnitude
atoi [] = none
atoi (c ∷ s) =
    if c == b'-'
    then Option.map (λ n. (true, n)) (magnitude (2 ^ 63 + 1) s)
    else Option.map (λ n. (false, n)) (magnitude (2 ^ 63) (if c == b'+' then s else c ∷ s))

-- `n < 0` of a sign and a magnitude
abbrev pub not_negative : Option (Bool × ℕ) → Option ℕ
not_negative none = none
not_negative (some (negative, n)) = if negative && ltb 0 n then none else some n

unfoldable pub strconv_atoi : Text → Option ℕ
unfolding atoi
strconv_atoi s = not_negative (atoi s)

-- The switch of `parseByteSize`: the multiplier, and the text without its unit.
unfoldable pub split_unit : Text → ℕ × Text
split_unit s =
    if has_suffix s (text "GB")
    then (1024 * 1024 * 1024, trim_suffix s (text "GB"))
    else if has_suffix s (text "MB")
    then (1024 * 1024, trim_suffix s (text "MB"))
    else if has_suffix s (text "KB")
    then (1024, trim_suffix s (text "KB"))
    else if has_suffix s (text "B")
    then (1, trim_suffix s (text "B"))
    else (1, s)

-- The product is an int64, and wraps.
unfoldable pub parse_byte_size : Text → Option ℤ
unfolding split_unit strconv_atoi trim_suffix trim_both to_upper wrap64
parse_byte_size s =
    let (multiplier, rest) = split_unit (to_upper (trim_space s)) in
    Option.map (λ n. wrap64 (n * multiplier)) (strconv_atoi (trim_space rest))
