-- ===== src/Prerender.antt =====
-- The `prerender_io` middleware: crawlers get a page that prerender.io has rendered. The rest of
-- the server, HTTP, gzip and the parsing of URLs are parameters.
pub mod Tables
pub mod Wanted
pub mod Page
pub mod Caddyfile
mod Tests
use swim.Prelude.{
  ℕ, zero, suc, Bool, true, false, not, ◌&&◌, ◌||◌, Option, none, some, List, [], ◌∷◌, ◌++◌, Text,
  text, text_eq, nat_eq, ◌==◌, has, to_lower, has_prefix, has_suffix, contains, is_empty, Result,
  ok, err, if◌then◌else◌,
}
use swim.Prelude.Dict.{Dict, lookup}
use swim.Http
use swim.Http.{Header}
use swim.Prerender.Tables.{default_crawler_user_agents, default_skipped_types}

abbrev pub or_default : List Text → List Text → List Text
or_default [] default = default
or_default (x ∷ xs) default = x ∷ xs

-- `Contains` of CrawlerUserAgents: one of the agents is in the text, in any case.
unfoldable pub any_agent : List Text → Text → Bool
any_agent [] x = false
any_agent (agent ∷ agents) x = contains (to_lower x) (to_lower agent) || any_agent agents x

unfoldable pub is_crawler : List Text → Text → Bool
unfolding any_agent
is_crawler c x = any_agent (or_default c default_crawler_user_agents) x

-- `Contains` of FileTypes: the text ends with one of them.
unfoldable pub any_type : List Text → Text → Bool
any_type [] x = false
any_type (v ∷ vs) x = has_suffix x (to_lower v) || any_type vs x

unfoldable pub is_skipped : List Text → Text → Bool
unfolding any_type
is_skipped c x = any_type (or_default c default_skipped_types) x

abbrev pub is_some : {A : Type 0} → Option A → Bool
is_some none = false
is_some (some a) = true

-- `url.URL` of a request, as far as it is read
pub record Url : Type 0 where
  pub scheme : Text
  pub path : Text
  pub raw_query : Text

pub record Request : Type 0 where
  pub method : Text
  pub host : Text
  pub url : Url
  pub header : Header

-- `U`: the URL that is configured.
pub record Prerender (U : Type 0) : Type 0 where
  pub prerender_url : Option U
  pub token : Text
  pub path_prefix : Text
  pub auth_header : Text
  pub crawler_user_agents : List Text
  pub skipped_file_types : List Text

-- A request to prerender.io
pub record Outgoing : Type 0 where
  pub url : Text
  pub header : Header

-- The bytes that a reader yields, and whether an error stops it behind them.
pub record Stream : Type 0 where
  pub bytes : Text
  pub broken : Bool

pub record Response : Type 0 where
  pub status_code : ℕ
  pub header : Header
  pub body : Stream

-- `compress t flushed`: what a gzip writer has written for `t` when it is closed, with a flush
-- first or not. `gunzip` has no result where the stream does not start as gzip.
pub record Web (S U : Type 0) : Type 0 where
  pub parse_url : Text → Result Text U
  pub url_string : U → Text
  pub query : Text → Dict Text (List Text)
  pub valid_url : Text → Bool
  pub send : Outgoing → S → S × Result Text Response
  pub compress : Text → Bool → Text
  pub gunzip : Stream → Option Stream

-- The answer to a client. `status` is `none` until `WriteHeader`; the server sends 200 for a
-- handler that returns before it.
pub record Answer : Type 0 where
  pub header : Header
  pub status : Option ℕ
  pub body : Text

abbrev pub set_header : Text → Text → Answer → Answer
set_header name value w = record w { header = Http.set w.header name value }

abbrev pub write_header : ℕ → Answer → Answer
write_header code w = record w { status = some code }

abbrev pub write : Text → Answer → Answer
write bytes w = record w { body = w.body ++ bytes }

-- cfSchemeRegex: the scheme that stands first
unfoldable pub cf_scheme : Text → Option Text
cf_scheme [] = none
cf_scheme (c ∷ s) =
    let rest = cf_scheme s in
    if has_prefix (c ∷ s) (text "\"scheme\":\"http\"")
    then some (text "http")
    else if has_prefix (c ∷ s) (text "\"scheme\":\"https\"")
    then some (text "https")
    else rest

abbrev pub or_scheme : Text → Option Text → Text
or_scheme protocol none = protocol
or_scheme protocol (some s) = s

-- `strings.Split(fp, ",")[0]`
unfoldable pub before_comma : Text → Text
before_comma [] = []
before_comma (c ∷ s) = let rest = before_comma s in if c == b',' then [] else c ∷ rest

unfoldable pub protocol_of : Request → Text
unfolding cf_scheme before_comma
protocol_of r =
    let seen = or_scheme r.url.scheme (cf_scheme (Http.get r.header (text "CF-Visitor"))) in
    let protocol = if is_empty seen then text "http" else seen in
    let fp = Http.get r.header (text "X-Forwarded-Proto") in
    if is_empty fp then protocol else before_comma fp

module _ {S U : Type 0} (web : Web S U) (p : Prerender U) where
  abbrev pub asks_for_page : Request → Bool
  asks_for_page r =
      not (is_empty (Http.get r.header (text "X-Bufferbot")))
      || is_some (lookup (text "_escaped_fragment_") (web.query r.url.raw_query))

  unfoldable pub should_prerender : Request → Bool
  unfolding is_skipped is_crawler
  should_prerender r =
      let user_agent = to_lower (Http.get r.header (text "User-Agent")) in
      if is_empty user_agent
      then false
      else if not (r.method == text "GET") && not (r.method == text "HEAD")
      then false
      else if is_skipped p.skipped_file_types (to_lower r.url.path)
      then false
      else if asks_for_page r
      then true
      else is_crawler p.crawler_user_agents user_agent

  unfoldable pub build_url : U → Request → Text
  unfolding protocol_of
  build_url prerender_url r =
      let base = web.url_string prerender_url in
      let slashed = if has_suffix base (text "/") then base else base ++ text "/" in
      slashed
      ++ protocol_of r
      ++ text "://"
      ++ r.host
      ++ p.path_prefix
      ++ r.url.path
      ++ text "?"
      ++ r.url.raw_query

  abbrev with_token : Header → Header
  with_token h =
      if is_empty p.token
      then h
      else Http.set h (if is_empty p.auth_header then text "X-Prerender-Token" else p.auth_header)
          p.token

  unfoldable pub outgoing : U → Request → Outgoing
  unfolding build_url
  outgoing prerender_url r =
      let h =
        Http.set (with_token []) (text "User-Agent") (Http.get r.header (text "User-Agent")) in
      let h' = Http.set h (text "Content-Type") (Http.get r.header (text "Content-Type")) in
      record {
        url = build_url prerender_url r;
        header = Http.set h' (text "Accept-Encoding") (text "gzip");
      }

  -- The page as it is copied through a gzip writer, which is flushed where the copy has no error.
  abbrev pub gzipped : Stream → Answer → Answer
  gzipped body w = write (web.compress body.bytes (not body.broken)) w

  abbrev pub gunzipped : Option Stream → Answer → Answer
  gunzipped none w = w
  gunzipped (some body) w = write body.bytes w

  abbrev pub accepts_gzip : Request → Bool
  accepts_gzip r = contains (Http.get r.header (text "Accept-Encoding")) (text "gzip")

  abbrev pub encoding : Header → Text
  encoding h = Http.get h (text "Content-Encoding")

  abbrev pub copy_page : Bool → Bool → Response → Answer → Answer
  copy_page true false res w =
      gzipped res.body
        (write_header res.status_code (set_header (text "Content-Encoding") (text "gzip") w))
  copy_page false true res w = gunzipped (web.gunzip res.body) (write_header res.status_code w)
  copy_page _ _ res w =
      write res.body.bytes (
        write_header res.status_code (set_header (text "Content-Encoding") (encoding res.header) w))

  unfoldable pub relay : Request → Response → Answer → Answer
  relay r res w = copy_page (accepts_gzip r) (contains (encoding res.header) (text "gzip")) res (
      set_header (text "X-Prerendered") (text "1")
        (set_header (text "Content-Type") (Http.get res.header (text "Content-Type")) w))

  abbrev pub relayed : Request → Answer → S × Result Text Response → S × Answer
  relayed r w (s, ok res) = (s, relay r res w)
  relayed r w (s, err e) = (s, w)

  -- `none`: the call panics, at the method of a URL that is nil.
  abbrev pub render_from : Option U → Request → Answer → S → Option (S × Answer)
  render_from none r w s = none
  render_from (some u) r w s =
      some
        (if web.valid_url (build_url u r) then relayed r w (web.send (outgoing u r) s) else (s, w))

  unfoldable pub pre_render_handler : Request → Answer → S → Option (S × Answer)
  unfolding outgoing relay
  pre_render_handler = render_from p.prerender_url

  abbrev pub no_error : {A : Type 0} → Option A → Option (A × Option Text)
  no_error none = none
  no_error (some a) = some (a, none)

  abbrev pub Next : Type 0
  Next = Request → Answer → S → Option ((S × Answer) × Option Text)

  -- With the error that it returns, if any
  unfoldable pub serve_http : Next → Next
  unfolding should_prerender pre_render_handler
  serve_http next r w s =
      if should_prerender r then no_error (pre_render_handler r w s) else next r w s

  unfoldable pub prerender_middleware :
      (Request → Answer → S → Option (S × Answer)) → Request → Answer → S → Option (S × Answer)
  unfolding should_prerender pre_render_handler
  prerender_middleware next r w s =
      if not (is_empty p.token) && should_prerender r then pre_render_handler r w s else next r w s
