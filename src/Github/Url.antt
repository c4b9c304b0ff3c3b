-- ===== src/Github/Url.antt =====
-- net/url's escapes and the split at a byte, as the client uses them.
use swim.Prelude.{
  ℕ, ◌+◌, ◌-◌, ◌/◌, ◌%◌, Bool, List, [], ◌∷◌, ◌++◌, ◌&&◌, ◌||◌, Text, text, has, nat_eq, ◌==◌, leb,
  ltb, if◌then◌else◌,
}

abbrev within : ℕ → ℕ → ℕ → Bool
within a b c = leb a c && leb c b

unfoldable pub unreserved : ℕ → Bool
unreserved c = within b'a' b'z' c || within b'A' b'Z' c || within b'0' b'9' c || has c (text "-_.~")

abbrev hex_digit : ℕ → ℕ
hex_digit d = if ltb d 10 then d + b'0' else d - 10 + b'A'

abbrev percent : ℕ → Text
percent c = b'%' ∷ hex_digit (c / 16) ∷ hex_digit (c % 16) ∷ []

-- url.QueryEscape
unfoldable pub query_escape : Text → Text
unfolding unreserved
query_escape [] = []
query_escape (c ∷ s) =
    (if unreserved c then c ∷ [] else if c == 32 then b'+' ∷ [] else percent c) ++ query_escape s

-- url.PathEscape
unfoldable pub path_escape : Text → Text
unfolding unreserved
path_escape [] = []
path_escape (c ∷ s) =
    (if unreserved c || has c (text "$&+:=@") then c ∷ [] else percent c) ++ path_escape s

abbrev onto_first : ℕ → List Text → List Text
onto_first c [] = (c ∷ []) ∷ []
onto_first c (s ∷ ss) = (c ∷ s) ∷ ss

-- strings.Split at a byte, strings.Join
unfoldable pub split : ℕ → Text → List Text
split d [] = [] ∷ []
split d (c ∷ s) = let rest = split d s in if c == d then [] ∷ rest else onto_first c rest

unfoldable pub join : Text → List Text → Text
join sep [] = []
join sep (s ∷ []) = s
join sep (s ∷ t ∷ ss) = s ++ sep ++ join sep (t ∷ ss)
