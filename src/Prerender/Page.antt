-- ===== src/Prerender/Page.antt =====
-- What the client of a prerendered page reads: gzip is undone, or done, as the client accepts it.
use mathlib.Core.Option.{some-injective}
use mathlib.Core.Logic.{if_neg}
use swim.Prelude.{
  ℕ, ◌≡◌, refl, sym, ap, ◌∙◌, Bool, true, false, not, Option, none, some, [], ◌∷◌, ◌++◌, Text, text,
  text_eq, contains, ◌==◌, is_empty, ◌⊎◌, inl, inr, Bool-cases, if◌then◌else◌, ℕ_discrete,
}
use swim.Http
use swim.Http.{Header, canonical, get-set}
use swim.Prerender.{
  Web, Prerender, Request, Response, Stream, Answer, set_header, write_header, encoding,
  accepts_gzip, copy_page, gunzipped, relay,
}

abbrev whole : Option Stream → Option Text
whole none = none
whole (some s) = if s.broken then none else some s.bytes

abbrev unbroken : Text → Stream
unbroken bytes = record { bytes = bytes; broken = false }

-- The page that a body stands for under its Content-Encoding: what gzip holds, or the body itself
-- where there is none. What another coding stands for is left open.
abbrev pub decoded : (Stream → Option Stream) → Text → Text → Option Text
decoded gunzip enc body =
    if enc == text "gzip"
    then whole (gunzip (unbroken body))
    else if is_empty enc
    then some body
    else none

-- gzip readers undo gzip writers.
abbrev pub Undoes : (Stream → Option Stream) → (Text → Bool → Text) → Type 0
Undoes gunzip compress = (t : Text) → gunzip (unbroken (compress t true)) ≡ some (unbroken t)

get_same :
    (h : Header) (v : Text)
    → Http.get (Http.set h (text "Content-Encoding") v) (text "Content-Encoding") ≡ v
unfolding canonical text_eq ℕ_discrete
get_same h v = get-set h (text "Content-Encoding") (text "Content-Encoding") v

gzip_lem : contains (text "gzip") (text "gzip") ≡ true
unfolding contains ℕ_discrete
gzip_lem = refl

no_gzip_lem : contains [] (text "gzip") ≡ false
unfolding contains ℕ_discrete
no_gzip_lem = refl

decoded-empty : (gunzip : Stream → Option Stream) (body : Text) → decoded gunzip [] body ≡ some body
unfolding text_eq
decoded-empty gunzip body = refl

decoded-gzip :
    (gunzip : Stream → Option Stream) (body : Text)
    → decoded gunzip (text "gzip") body ≡ whole (gunzip (unbroken body))
unfolding text_eq ℕ_discrete
decoded-gzip gunzip body = refl

empty_lem : (enc : Text) → is_empty enc ≡ true → enc ≡ []
empty_lem [] e = refl
empty_lem (c ∷ s) e = absurd (cc)

coding :
    (gunzip : Stream → Option Stream) (enc body page : Text)
    → decoded gunzip enc body ≡ some page
    → (enc ≡ text "gzip") ⊎ (enc ≡ [])
coding gunzip enc body page is = elim (text_eq.dec enc (text "gzip")) [
  | yes same ↦ inl same
  | no differ ↦ elim (Bool-cases (is_empty enc)) [
    | inl none_is ↦ inr (empty_lem enc none_is)
    | inr some_is ↦
        let refused : none ≡ some page = rw (if_neg _ differ, some_is) at is in absurd (cc)
  ]
]

decoded_plain :
    (gunzip : Stream → Option Stream) (enc body page : Text)
    → contains enc (text "gzip") ≡ false
    → decoded gunzip enc body ≡ some page
    → body ≡ page
decoded_plain gunzip enc body page plain is = elim (coding gunzip enc body page is) [
  | inl same ↦ absurd (cc (plain, same, gzip_lem))
  | inr none_is ↦
      some-injective body page
        (sym (decoded-empty gunzip body) ∙ ap (λ e. decoded gunzip e body) (sym none_is) ∙ is)
]

decoded_gzip :
    (gunzip : Stream → Option Stream) (enc body page : Text)
    → contains enc (text "gzip") ≡ true
    → decoded gunzip enc body ≡ some page
    → whole (gunzip (unbroken body)) ≡ some page
decoded_gzip gunzip enc body page zipped is = elim (coding gunzip enc body page is) [
  | inl same ↦ sym (decoded-gzip gunzip body) ∙ ap (λ e. decoded gunzip e body) (sym same) ∙ is
  | inr none_is ↦ absurd (cc (zipped, none_is, no_gzip_lem))
]

module _ {S U : Type 0} (web : Web S U) (p : Prerender U) where
  -- The answer stands for the page, has the status, and is in gzip only where that is accepted.
  abbrev pub Shows : Text → ℕ → Bool → Answer → Type 0
  Shows page code accepted w =
      (decoded web.gunzip (encoding web p w.header) w.body ≡ some page)
      × (w.status ≡ some code)
      × (accepted ≡ false → contains (encoding web p w.header) (text "gzip") ≡ false)

  Shows-parts :
      (page : Text) (code : ℕ) (accepted : Bool) (w : Answer) (enc body : Text)
      → encoding web p w.header ≡ enc
      → w.body ≡ body
      → w.status ≡ some code
      → decoded web.gunzip enc body ≡ some page
      → (accepted ≡ false → contains enc (text "gzip") ≡ false)
      → Shows page code accepted w
  Shows-parts page code accepted w enc body is_enc is_body status is plain = (
    ap (λ e. decoded web.gunzip e w.body) is_enc ∙ ap (decoded web.gunzip enc) is_body ∙ is,
    status,
    λ a. ap (λ e. contains e (text "gzip")) is_enc ∙ plain a,
  )

  gunzipped-body :
      (o : Option Stream) (w : Answer) (page : Text)
      → whole o ≡ some page
      → (gunzipped web p o w).body ≡ w.body ++ page
  gunzipped-body none w page e = absurd (cc)
  gunzipped-body (some s) w page e = ap (λ b. w.body ++ b) (whole_bytes s.broken s.bytes e)
    where
      whole_bytes : (b : Bool) (t : Text) → (if b then none else some t) ≡ some page → t ≡ page
      whole_bytes true t h = absurd (cc)
      whole_bytes false t h = some-injective t page h

  gunzipped-encoding :
      (o : Option Stream) (w : Answer)
      → encoding web p (gunzipped web p o w).header ≡ encoding web p w.header
  gunzipped-encoding none w = refl
  gunzipped-encoding (some s) w = refl

  gunzipped-status : (o : Option Stream) (w : Answer) → (gunzipped web p o w).status ≡ w.status
  gunzipped-status none w = refl
  gunzipped-status (some s) w = refl

  copy-Shows :
      Undoes web.gunzip web.compress
      → (a z : Bool) (res : Response) (w : Answer) (page : Text)
      → contains (encoding web p res.header) (text "gzip") ≡ z
      → encoding web p w.header ≡ []
      → w.body ≡ []
      → res.body.broken ≡ false
      → decoded web.gunzip (encoding web p res.header) res.body.bytes ≡ some page
      → Shows page res.status_code a (copy_page web p a z res w)
  unfolding contains
  copy-Shows undoes true false res w page plain none_yet empty sound is =
      let same =
        decoded_plain web.gunzip (encoding web p res.header) res.body.bytes page plain is in
      Shows-parts page res.status_code true _ (text "gzip") (web.compress page true)
        (get_same w.header (text "gzip"))
        (ap (λ b. b ++ web.compress res.body.bytes (not res.body.broken)) empty
          ∙ ap (λ b. web.compress res.body.bytes (not b)) sound
          ∙ ap (λ t. web.compress t true) same)
        refl (decoded-gzip web.gunzip (web.compress page true) ∙ ap whole (undoes page))
        (λ h. absurd (cc))
  copy-Shows undoes false true res w page zipped none_yet empty sound is =
      let read : whole (web.gunzip res.body) ≡ some page =
        ap (λ b. whole (web.gunzip (record { bytes = res.body.bytes; broken = b }))) sound
        ∙ decoded_gzip web.gunzip (encoding web p res.header) res.body.bytes page zipped is in
      let v = write_header res.status_code w in
      Shows-parts page res.status_code false _ [] page
        (gunzipped-encoding (web.gunzip res.body) v ∙ none_yet)
        (gunzipped-body (web.gunzip res.body) v page read ∙ ap (λ b. b ++ page) empty)
        (gunzipped-status (web.gunzip res.body) v) (decoded-empty web.gunzip page) (λ h. refl)
  copy-Shows undoes true true res w page same none_yet empty sound is =
      Shows-parts page res.status_code true _ (encoding web p res.header) res.body.bytes
        (get_same w.header (encoding web p res.header)) (ap (λ b. b ++ res.body.bytes) empty) refl
        is (λ h. absurd (cc))
  copy-Shows undoes false false res w page same none_yet empty sound is =
      Shows-parts page res.status_code false _ (encoding web p res.header) res.body.bytes
        (get_same w.header (encoding web p res.header)) (ap (λ b. b ++ res.body.bytes) empty) refl
        is (λ h. same)

  other_headers :
      (w : Answer) (t x : Text)
      → encoding web p
          (set_header (text "X-Prerendered") x (set_header (text "Content-Type") t w)).header
        ≡ encoding web p w.header
  unfolding canonical text_eq ℕ_discrete
  other_headers w t x =
      get-set _ (text "X-Prerendered") (text "Content-Encoding") x
      ∙ get-set w.header (text "Content-Type") (text "Content-Encoding") t

  pub relay-Shows :
      Undoes web.gunzip web.compress
      → (r : Request) (res : Response) (w : Answer) (page : Text) → encoding web p w.header ≡ []
      → w.body ≡ []
      → res.body.broken ≡ false
      → decoded web.gunzip (encoding web p res.header) res.body.bytes ≡ some page
      → Shows page res.status_code (accepts_gzip web p r) (relay web p r res w)
  unfolding relay
  relay-Shows undoes r res w page none_yet empty sound is =
      copy-Shows undoes (accepts_gzip web p r) (contains (encoding web p res.header) (text "gzip"))
        res _ page refl (other_headers w _ (text "1") ∙ none_yet) empty sound is
