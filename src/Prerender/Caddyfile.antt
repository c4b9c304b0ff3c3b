-- ===== src/Prerender/Caddyfile.antt =====
-- `UnmarshalCaddyfile` of prerender.go, and that a middleware that it configures does not panic.
use swim.Prelude.{
  ℕ, ◌≡◌, refl, sym, subst, Bool, true, false, Option, none, some, [], Text, text, text_eq, ◌==◌,
  to_lower, Result, ok, err, if◌then◌else◌, ap, ◌∙◌, ◌⊎◌, inl, inr,
}
use swim.Prelude.Actions.{Action, ◌>>=◌, fail, and_then}
use swim.Caddy.{
  ConfigError, arg_err, syntax_err, other_err, Dispenser, Reader, arg, optional_arg, resume,
  each_directive, block, once,
}
use swim.Prerender.{
  Web, Prerender, Request, Response, Answer, build_url, outgoing, relay, relayed, render_from,
  pre_render_handler, no_error, should_prerender, serve_http,
}

abbrev pub new_prerender : {U : Type 0} → Prerender U
new_prerender = record {
  prerender_url = none;
  token = [];
  path_prefix = [];
  auth_header = [];
  crawler_user_agents = [];
  skipped_file_types = [];
}

module _ {U D : Type 0} (parse_url : Text → Result Text U) (dispenser : Dispenser D) where
  abbrev with_url : Prerender U → Result Text U → Action D ConfigError (Prerender U)
  with_url co (ok u) d = (d, ok (record co { prerender_url = some u }))
  with_url co (err e) d = (d, err (other_err e))

  abbrev url_found : Prerender U → D × Bool → D × Result ConfigError (Prerender U)
  url_found co (d, true) = with_url co (parse_url (dispenser.val d)) d
  url_found co (d, false) = (d, ok co)

  abbrev too_many : Prerender U → D × Bool → D × Result ConfigError (Prerender U)
  too_many co (d, true) = (d, err arg_err)
  too_many co (d, false) = (d, ok co)

  -- `<token> [<path_prefix>] [<prerender_url>]`, each of them optional
  unfoldable pub positional : Prerender U → Action D ConfigError (Prerender U)
  unfolding optional_arg
  positional co d =
      let (d1, co1) = optional_arg dispenser (λ c v. record c { token = v }) co d in
      let (d2, co2) = optional_arg dispenser (λ c v. record c { path_prefix = v }) co1 d1 in
      and_then (λ c v. too_many c (dispenser.next_arg v)) (url_found co2 (dispenser.next_arg d2))

  abbrev pub option_of : Text → Prerender U → Action D ConfigError (Prerender U)
  option_of key co =
      if key == text "token"
      then arg dispenser >>= (λ v d. (d, ok (record co { token = v })))
      else if key == text "path_prefix"
      then arg dispenser >>= (λ v d. (d, ok (record co { path_prefix = v })))
      else if key == text "url"
      then arg dispenser >>= (λ v. with_url co (parse_url v))
      else if key == text "auth_header"
      then arg dispenser >>= (λ v d. (d, ok (record co { auth_header = v })))
      else fail (syntax_err (text "expected token, path_prefix, url, or auth_header"))

  unfoldable pub prerender_option : Prerender U → Action D ConfigError (Prerender U)
  prerender_option co d = option_of (to_lower (dispenser.val d)) co d

  abbrev optional_url : Result Text U → Option U
  optional_url (ok u) = some u
  optional_url (err e) = none

  -- The default URL where none is set; the error of its parsing is not looked at.
  abbrev pub default_url : Option U → Option U
  default_url none = optional_url (parse_url (text "https://service.prerender.io"))
  default_url (some u) = some u

  abbrev pub defaulted :
      Option (D × Result ConfigError (Prerender U)) → Option (D × Result ConfigError (Prerender U))
  defaulted none = none
  defaulted (some (d, ok co)) =
      some (d, ok (record co { prerender_url = default_url co.prerender_url }))
  defaulted (some (d, err e)) = some (d, err e)

  -- One directive: its arguments, then its block, whose options override them.
  unfoldable pub directive : ℕ → Reader D (Prerender U)
  unfolding positional prerender_option
  directive fuel co d =
      resume dispenser (block dispenser fuel (once dispenser prerender_option))
        (some (positional co d))

  unfoldable pub unmarshal_caddyfile : ℕ → Reader D (Prerender U)
  unfolding directive
  unmarshal_caddyfile fuel co d = defaulted (each_directive dispenser fuel (directive fuel) co d)

  -- A prerenderer that has a URL.
  unfoldable HasUrl : Option (D × Result ConfigError (Prerender U)) → Type 0
  HasUrl none = Unit
  HasUrl (some (d, err e)) = Unit
  HasUrl (some (d, ok co)) = (u : U) × (co.prerender_url ≡ some u)

  default_url-some :
      (u : U) (o : Option U)
      → parse_url (text "https://service.prerender.io") ≡ ok u
      → (v : U) × (default_url o ≡ some v)
  default_url-some u none e = (u, ap optional_url e)
  default_url-some u (some v) e = (v, refl)

  defaulted-HasUrl :
      (u : U) (o : Option (D × Result ConfigError (Prerender U)))
      → parse_url (text "https://service.prerender.io") ≡ ok u
      → HasUrl (defaulted o)
  unfolding HasUrl
  defaulted-HasUrl u none e = tt
  defaulted-HasUrl u (some (d, ok co)) e = default_url-some u co.prerender_url e
  defaulted-HasUrl u (some (d, err x)) e = tt

  unmarshal-HasUrl :
      (fuel : ℕ) (d e : D) (u : U) (p : Prerender U)
      → parse_url (text "https://service.prerender.io") ≡ ok u
      → unmarshal_caddyfile fuel new_prerender d ≡ some (e, ok p)
      → (v : U) × (p.prerender_url ≡ some v)
  unfolding unmarshal_caddyfile HasUrl
  unmarshal-HasUrl fuel d e u p default read =
      subst HasUrl read (
        defaulted-HasUrl u (each_directive dispenser fuel (directive fuel) new_prerender d) default)

module _ {S U : Type 0} (web : Web S U) (p : Prerender U) where
  -- The three ways that a request is passed on to a prerender.io at `u`: its URL there is none, and
  -- nothing is sent; what is sent fails; or the response to it is relayed. Only the last changes the
  -- answer.
  abbrev pub Passed : U → Request → Answer → S → S → Answer → Type 0
  Passed u r w s t v =
      ((web.valid_url (build_url web p u r) ≡ false) × (t ≡ s) × (v ≡ w))
      ⊎ ((e : Text) × (web.send (outgoing web p u r) s ≡ (t, err e)) × (v ≡ w))
      ⊎ ((res : Response) × (web.send (outgoing web p u r) s ≡ (t, ok res))
          × (v ≡ relay web p r res w))

  abbrev PassedAt : U → Request → Answer → S → S × Answer → Type 0
  PassedAt u r w s (t, v) = Passed u r w s t v

  relayed-Passed :
      (u : U) (r : Request) (w : Answer) (s : S) (x : S × Result Text Response)
      → web.send (outgoing web p u r) s ≡ x
      → PassedAt u r w s (relayed web p r w x)
  relayed-Passed u r w s (t, ok res) sent = inr (inr (res, sent, refl))
  relayed-Passed u r w s (t, err e) sent = inr (inl (e, sent, refl))

  asked-Passed :
      (u : U) (r : Request) (w : Answer) (s : S) (b : Bool)
      → web.valid_url (build_url web p u r) ≡ b
      → PassedAt u r w s (if b then relayed web p r w (web.send (outgoing web p u r) s) else (s, w))
  asked-Passed u r w s true e = relayed-Passed u r w s _ refl
  asked-Passed u r w s false e = inl (e, refl, refl)

  abbrev Rendered : U → Request → Answer → S → Option (S × Answer) → Type 0
  Rendered u r w s o = (v : S × Answer) × (o ≡ some v) × PassedAt u r w s v

  render-Rendered :
      (u : U) (o : Option U) (r : Request) (w : Answer) (s : S)
      → o ≡ some u
      → Rendered u r w s (render_from web p o r w s)
  render-Rendered u o r w s e =
      subst (λ o. Rendered u r w s (render_from web p o r w s)) (sym e)
        (_, refl, asked-Passed u r w s _ refl)

  handler-Rendered :
      (u : U) (r : Request) (w : Answer) (s : S)
      → p.prerender_url ≡ some u
      → Rendered u r w s (pre_render_handler web p r w s)
  unfolding pre_render_handler
  handler-Rendered u r w s e = render-Rendered u p.prerender_url r w s e

-- Behind a Caddyfile that is read without an error, and where the default URL parses, a request
-- that is prerendered neither panics nor fails nor reaches the next handler: where the URL that is
-- configured gives no URL for the request nothing is sent and the answer is as it was, where what is
-- sent there for the request fails the answer is as it was, and else it is the response that is
-- sent back, relayed.
pub caddyfile-Passed :
    {S U D : Type 0} (web : Web S U) (dispenser : Dispenser D) (fuel : ℕ) (d e : D) (u : U)
    (p : Prerender U) (next : Request → Answer → S → Option ((S × Answer) × Option Text))
    (r : Request) (w : Answer) (s : S)
    → web.parse_url (text "https://service.prerender.io") ≡ ok u
    → unmarshal_caddyfile web.parse_url dispenser fuel new_prerender d ≡ some (e, ok p)
    → should_prerender web p r ≡ true
    → (url : U) × (t : S) × (v : Answer) × (p.prerender_url ≡ some url)
      × (serve_http web p next r w s ≡ some ((t, v), none))
      × Passed web p url r w s t v
unfolding serve_http
caddyfile-Passed web dispenser fuel d e u p next r w s default read wanted =
    let (url, is_url) = unmarshal-HasUrl web.parse_url dispenser fuel d e u p default read in
    let ((t, v), is, passed) = handler-Rendered web p url r w s is_url in
    (
      url,
      t,
      v,
      is_url,
      ap (λ b. if b then no_error web p (pre_render_handler web p r w s) else next r w s) wanted
          ∙ ap (no_error web p) is,
      passed,
    )
