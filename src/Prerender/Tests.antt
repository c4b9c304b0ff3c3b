-- ===== src/Prerender/Tests.antt =====
-- The prerenderer at concrete requests.
use swim.Prelude.{
  ℕ, zero, suc, ◌≡◌, refl, Bool, true, false, not, Option, none, some, List, [], ◌∷◌, ◌++◌, Text,
  text, text_eq, Result, ok, err, ℕ_discrete, arith, ◌↔◌, contains, to_lower, trim_prefix,
  has_prefix,
}
use swim.Prelude.Dict.{lookup}
use swim.Http
use swim.Http.{Header}
use swim.Caddy.Script.{Token, directive, word, script}
use swim.Prerender.{
  Web, Prerender, Request, Response, Stream, Answer, should_prerender, relay, accepts_gzip,
  encoding, serve_http, is_crawler,
}
use swim.Prerender.Wanted.{Wanted, should_prerender-Wanted}
use swim.Prerender.Page.{decoded, Shows, relay-Shows}
use swim.Prerender.Caddyfile.{new_prerender, unmarshal_caddyfile, Passed, caddyfile-Passed}

abbrev agent : Text
agent = text "Mozilla/5.0 (compatible; Googlebot/2.1)"

abbrev crawl : Request
crawl = record {
  method = text "GET";
  host = text "example.com";
  url = record { scheme = []; path = text "/page"; raw_query = [] };
  header = (text "User-Agent", agent ∷ []) ∷ [];
}

-- A page in gzip stands behind a byte.
abbrev unzip : Text → Bool → Option Stream
unzip [] broken = none
unzip (c ∷ t) broken = some (record { bytes = t; broken = broken })

abbrev page : Response
page = record {
  status_code = 200;
  header = (text "Content-Encoding", text "gzip" ∷ []) ∷ [];
  body = record { bytes = 31 ∷ text "<html>"; broken = false };
}

abbrev web : Web ℕ Text
web = record {
  parse_url = ok;
  url_string = λ u. u;
  query = λ q. [];
  valid_url = λ u. true;
  send = λ o s. (suc s, ok page);
  compress = λ t flushed. 31 ∷ t;
  gunzip = λ s. unzip s.bytes s.broken;
}

abbrev plain : Prerender Text
plain = new_prerender

should_prerender-Wanted_example : should_prerender web plain crawl ≡ true ↔ Wanted web plain crawl
should_prerender-Wanted_example = should_prerender-Wanted web plain crawl

abbrev blank : Answer
blank = record { header = []; status = none; body = [] }

no_encoding : encoding web plain blank.header ≡ []
unfolding Http.get lookup
no_encoding = refl

page_shown :
    decoded web.gunzip (encoding web plain page.header) page.body.bytes ≡ some (text "<html>")
unfolding Http.get contains lookup text_eq ℕ_discrete
page_shown = refl

relay-Shows_example :
    Shows web plain
      (text "<html>")
      200
      (accepts_gzip web plain crawl)
      (relay web plain crawl page blank)
relay-Shows_example =
    relay-Shows web plain (λ t. refl) crawl page blank (text "<html>") no_encoding refl refl
      page_shown

abbrev tokens : List Token
tokens = directive (text "prerender_io") ∷ word (text "secret") ∷ []

abbrev with_token : Prerender Text
with_token = record plain {
  prerender_url = some (text "https://service.prerender.io");
  token = text "secret";
}

reads_token :
    unmarshal_caddyfile ok script 3 new_prerender ([], tokens)
    ≡ some ((text "secret", []), ok with_token)
unfolding unmarshal_caddyfile swim.Caddy.each_directive swim.Caddy.turn
    swim.Prelude.Actions.and_then swim.Caddy.block
reads_token = refl

wants_page : should_prerender web with_token crawl ≡ true
unfolding should_prerender to_lower Http.get lookup text_eq ℕ_discrete contains
wants_page = refl

abbrev next : Request → Answer → ℕ → Option ((ℕ × Answer) × Option Text)
next r w s = none

caddyfile-Passed_example :
    (url : Text) × (t : ℕ) × (v : Answer) × (with_token.prerender_url ≡ some url)
    × (serve_http web with_token next crawl blank 0 ≡ some ((t, v), none))
    × Passed web with_token url crawl blank 0 t v
caddyfile-Passed_example =
    caddyfile-Passed web script 3 ([], tokens) (text "secret", [])
      (text "https://service.prerender.io") with_token next crawl blank 0 refl reads_token
      wants_page

-- The entry of the table ends with a space, and the agent is not taken for a crawler.
search_bot : is_crawler [] (text "Mozilla/5.0 (compatible; OAI-SearchBot/1.0)") ≡ false
unfolding is_crawler contains to_lower ℕ_discrete
search_bot = refl
