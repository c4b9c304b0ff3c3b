-- ===== src/Http.antt =====
-- What the modules use of Go's `http.Header`, a map from canonical names to lists of values: `Get`,
-- `Set`, `Add` and `Del`, with the names made canonical as package textproto does.
use swim.Prelude.{
  ℕ, ◌+◌, ◌-◌, Bool, true, false, ◌&&◌, ◌||◌, Option, none, some, List, [], ◌∷◌, ◌++◌, Text, text,
  text_eq, nat_eq, ◌==◌, has, leb, if◌then◌else◌, if-app, ◌≡◌, ap, ◌∙◌,
}
use swim.Prelude.Dict.{Dict, lookup, insert, erase, lookup-insert, NodupKeys, lookup-erase_self}

abbrev pub Header : Type 0
Header = Dict Text (List Text)

-- The bytes of a token: letters, digits and these marks.
abbrev is_token_byte : ℕ → Bool
is_token_byte c =
    (leb b'a' c && leb c b'z')
    || (leb b'A' c && leb c b'Z')
    || (leb b'0' c && leb c b'9')
    || has c (text "!#$%&'*+-.^_`|~")

abbrev all_token : Text → Bool
all_token [] = true
all_token (c ∷ s) = is_token_byte c && all_token s

-- A letter behind a dash, or the first, in upper case, each other in lower case.
abbrev capitals : Bool → Text → Text
capitals start [] = []
capitals true (c ∷ s) = (if leb b'a' c && leb c b'z' then c - 32 else c) ∷ capitals (c == b'-') s
capitals false (c ∷ s) = (if leb b'A' c && leb c b'Z' then c + 32 else c) ∷ capitals (c == b'-') s

-- A name with another byte stays as it is.
unfoldable pub canonical : Text → Text
canonical name = if all_token name then capitals true name else name

abbrev pub first : Option (List Text) → Text
first none = []
first (some []) = []
first (some (v ∷ vs)) = v

abbrev all_values : Option (List Text) → List Text
all_values none = []
all_values (some vs) = vs

-- The empty text where there is no value.
unfoldable pub get : Header → Text → Text
unfolding canonical
get h name = first (lookup (canonical name) h)

unfoldable pub set : Header → Text → Text → Header
unfolding canonical
set h name value = insert (canonical name) (value ∷ []) h

unfoldable pub add : Header → Text → Text → Header
unfolding canonical
add h name value = insert (canonical name) (all_values (lookup (canonical name) h) ++ value ∷ []) h

unfoldable pub del : Header → Text → Header
unfolding canonical
del h name = erase (canonical name) h

pub get-set :
    (h : Header) (name other value : Text)
    → get (set h name value) other
      ≡ (if canonical other == canonical name then value else get h other)
unfolding get set
get-set h name other value =
    ap first (lookup-insert (canonical other) (canonical name) (value ∷ []) h)
    ∙ if-app first (canonical other == canonical name) (some (value ∷ []))
        (lookup (canonical other) h)

pub get-del : (h : Header) (name : Text) → NodupKeys h → get (del h name) name ≡ []
unfolding get del
get-del h name distinct = ap first (lookup-erase_self (canonical name) h distinct)
