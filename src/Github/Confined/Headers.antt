-- ===== src/Github/Confined/Headers.antt =====
-- What a request of the client carries.
use swim.Prelude.{
  ◌≡◌, refl, ap, ◌∙◌, Bool, true, false, [], ◌++◌, Text, text, text_eq, nat_eq, ◌==◌, is_empty,
  if◌then◌else◌, ℕ_discrete,
}
use swim.Prelude.Dict.{lookup}
use swim.Http.{Header, get, set, get-set, canonical}
use swim.Github.Client.{Settings, HttpRequest, new_request, set_auth, accept_json, repo_url}

-- The `Authorization` that goes with the token.
abbrev pub bearer : Text → Text
bearer token = if is_empty token then [] else text "Bearer " ++ token

-- A request to the repository, with the token where there is one.
pub record Allowed (c : Settings) (r : HttpRequest) : Type 0 where
  pub below : (rest : Text) × (r.url ≡ repo_url c ++ rest)
  pub authorized : get r.header (text "Authorization") ≡ bearer c.token

differ : (canonical (text "Authorization") == canonical (text "Accept")) ≡ false
unfolding canonical text_eq ℕ_discrete
differ = refl

same : (canonical (text "Authorization") == canonical (text "Authorization")) ≡ true
unfolding canonical text_eq ℕ_discrete
same = refl

set_if :
    (b : Bool) (value : Text) (r : HttpRequest)
    → get r.header (text "Authorization") ≡ []
    → get
        (if b then r else record r { header = set r.header (text "Authorization") value }).header
        (text "Authorization")
      ≡ (if b then [] else value)
set_if true value r bare = bare
set_if false value r bare =
    get-set r.header (text "Authorization") (text "Authorization") value
    ∙ ap (λ b. if b then value else get r.header (text "Authorization")) same

get-new_request : (url : Text) → get (new_request url).header (text "Authorization") ≡ []
unfolding new_request get lookup
get-new_request url = refl

pub get-set_auth :
    (token url : Text)
    → get (set_auth token (new_request url)).header (text "Authorization") ≡ bearer token
unfolding set_auth
get-set_auth token url =
    set_if (is_empty token) (text "Bearer " ++ token) (new_request url) (get-new_request url)

url-if :
    (b : Bool) (header : Header) (r : HttpRequest)
    → (if b then r else record r { header = header }).url ≡ r.url
url-if true header r = refl
url-if false header r = refl

pub url-set_auth : (token url : Text) → (set_auth token (new_request url)).url ≡ url
unfolding set_auth new_request
url-set_auth token url = url-if (is_empty token) _ (new_request url)

pub get-accept_json :
    (r : HttpRequest)
    → get (accept_json r).header (text "Authorization") ≡ get r.header (text "Authorization")
unfolding accept_json
get-accept_json r =
    get-set r.header (text "Accept") (text "Authorization") (text "application/vnd.github+json")
    ∙ ap
        (λ b. if b then text "application/vnd.github+json" else get r.header (text "Authorization"))
        differ
