-- ===== src/Prelude/Bytes.antt =====
-- Texts as lists of bytes, as Go's strings are, with the functions of package strings that the
-- program calls.
use Prim.Native.Nat.{ℕ, ◌+◌, ◌-◌}
use Prim.Native.Char.{code}
use Prim.Native.String.{String}
use mathlib.Core.Path.{◌≡◌, refl}
use mathlib.Core.Logic.{dite}
use mathlib.Core.Bool.{Bool, true, false, ◌&&◌, ◌||◌}
use mathlib.Core.List.{List, [], ◌∷◌, ◌++◌, map, reverse}
use native.Mathlib.Decide.{ℕ_discrete}
use native.Mathlib.Omega.{arith}
use swim.Prelude.Tests.{Eq, ◌==◌, nat_eq, ltb, leb, if◌then◌else◌}

abbrev pub Text : Type 0
Text = List ℕ

-- A literal of the source, as its bytes (every literal is ASCII).
abbrev pub text : String → Text
text String.[] = []
text (String.◌∷◌ c s) = code c ∷ text s

text_dec : Discrete Text
text_dec [] [] = yes refl
text_dec [] (d ∷ t) = no (ground arith)
text_dec (c ∷ s) [] = no (ground arith)
text_dec (c ∷ s) (d ∷ t) =
    dite (ℕ_discrete c d)
      (λ p. dite (text_dec s t) (λ q. yes (ground arith)) (λ n. no (ground arith)))
      (λ n. no (ground arith))

instance unfoldable pub text_eq : Eq Text
unfolding text_dec
text_eq = record { dec = text_dec }

abbrev pub is_empty : Text → Bool
is_empty [] = true
is_empty (c ∷ s) = false

-- strings.HasPrefix
abbrev pub has_prefix : Text → Text → Bool
has_prefix s [] = true
has_prefix [] (d ∷ t) = false
has_prefix (c ∷ s) (d ∷ t) = (c == d) && has_prefix s t

-- strings.TrimPrefix: the text as it is where the prefix is absent
abbrev drop_prefix : Text → Text → Text
drop_prefix s [] = s
drop_prefix [] (d ∷ t) = []
drop_prefix (c ∷ s) (d ∷ t) = drop_prefix s t

unfoldable pub trim_prefix : Text → Text → Text
trim_prefix s t = if has_prefix s t then drop_prefix s t else s

-- strings.HasSuffix, strings.TrimSuffix
abbrev pub has_suffix : Text → Text → Bool
has_suffix s t = has_prefix (reverse s) (reverse t)

unfoldable pub trim_suffix : Text → Text → Text
unfolding trim_prefix
trim_suffix s t = reverse (trim_prefix (reverse s) (reverse t))

-- strings.Contains
unfoldable pub contains : Text → Text → Bool
contains [] t = is_empty t
contains (c ∷ s) t = has_prefix (c ∷ s) t || contains s t

-- strings.ToLower and strings.ToUpper on ASCII
abbrev lower_byte : ℕ → ℕ
lower_byte c = if leb b'A' c && leb c b'Z' then c + 32 else c

abbrev upper_byte : ℕ → ℕ
upper_byte c = if leb b'a' c && leb c b'z' then c - 32 else c

unfoldable pub to_lower : Text → Text
to_lower = map lower_byte

unfoldable pub to_upper : Text → Text
to_upper = map upper_byte

-- strings.TrimSpace on ASCII: tab, line feed, vertical tab, form feed, return and space
abbrev pub is_space : ℕ → Bool
is_space c = (c == 32) || (leb 9 c && leb c 13)

unfoldable pub trim_left : (ℕ → Bool) → Text → Text
trim_left p [] = []
trim_left p (c ∷ s) = let rest = trim_left p s in if p c then rest else c ∷ s

unfoldable pub trim_both : (ℕ → Bool) → Text → Text
unfolding trim_left
trim_both p s = reverse (trim_left p (reverse (trim_left p s)))

abbrev pub trim_space : Text → Text
trim_space = trim_both is_space

-- The order of Go's strings: bytewise.
unfoldable pub text_lt : Text → Text → Bool
text_lt s [] = false
text_lt [] (d ∷ t) = true
text_lt (c ∷ s) (d ∷ t) = ltb c d || ((c == d) && text_lt s t)

pub has_prefix-append : (p s : Text) → has_prefix (p ++ s) p ≡ true
has_prefix-append [] s = refl
has_prefix-append (c ∷ p) s = ground (arith, has_prefix-append p s)

drop_prefix-append : (p s : Text) → drop_prefix (p ++ s) p ≡ s
drop_prefix-append [] s = refl
drop_prefix-append (c ∷ p) s = drop_prefix-append p s

pub trim_prefix-append : (p s : Text) → trim_prefix (p ++ s) p ≡ s
unfolding trim_prefix
trim_prefix-append p s = rw (has_prefix-append p s) (drop_prefix-append p s)
