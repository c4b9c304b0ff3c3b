-- ===== src/Handler/Key/Hosts.antt =====
-- Which hosts and which requests of the management API name one preview.

use swim.Prelude.{
  ℕ, ◌<◌, ◌^◌, ◌≡◌, ◌≢◌, trim_prefix, refl, sym, ap, ◌∙◌, none, some, List, [], ◌∷◌, ◌++◌, Text,
  text, nat_eq, ℕ_discrete, ltb, if◌then◌else◌, trim_prefix-append, arith,
}
use swim.Prelude.Int.{ℤ, pos}
use swim.Handler.Api.{request_key, evict_request_key}
use swim.Config.{strconv_atoi}
use swim.Config.Decimal.{decimal, decimal_ℤ, strconv_atoi-decimal}
use swim.Handler.Key.{before_colon, key_kind, key_of, extract_key}

before_colon-append : (h p : Text) → before_colon p ≡ none → before_colon (h ++ (b':' ∷ p)) ≡ some h
unfolding before_colon ℕ_discrete
before_colon-append [] p e = rw e refl
before_colon-append (c ∷ h) p e = rw (before_colon-append h p e) refl

-- A port does not change the preview that a host without colons names.
pub extract_key-port :
    (find_submatch : Text → List Text) (host port : Text)
    → before_colon host ≡ none
    → before_colon port ≡ none
    → extract_key find_submatch (host ++ (b':' ∷ port)) ≡ extract_key find_submatch host
unfolding extract_key
extract_key-port find_submatch host port bare digits =
    rw (before_colon-append host port digits, bare) refl

fits : (n limit : ℕ) → n < limit → (if ltb n limit then some n else none) ≡ some n
fits n limit small = ground arith

branch_key :
    (branch : Text) (pr : ℤ) (id : ℕ)
    → branch ≢ []
    → strconv_atoi branch ≡ none
    → key_of branch ≡ request_key (record { pr = pr; branch = branch; artifact_id = id })
unfolding key_of
branch_key [] pr id named e = absurd (named refl)
branch_key (c ∷ s) pr id named e = ap (key_kind (c ∷ s)) e

evict_branch_key :
    (branch : Text) (pr : ℤ)
    → branch ≢ []
    → strconv_atoi branch ≡ none
    → evict_request_key (record { pr = pr; branch = branch }) ≡ key_of branch
unfolding key_of
evict_branch_key [] pr named e = absurd (named refl)
evict_branch_key (c ∷ s) pr named e = sym (ap (key_kind (c ∷ s)) e)

pub key_of-request_key :
    (n id : ℕ) (branch : Text) (pr : ℤ)
    → n < 2 ^ 63
    → branch ≢ []
    → strconv_atoi branch ≡ none
    → (key_of (decimal n) ≡ request_key (record { pr = pos n; branch = []; artifact_id = id }))
      × (strconv_atoi (trim_prefix (key_of (decimal n)) (text "pr:")) ≡ some n)
      × (key_of branch ≡ request_key (record { pr = pr; branch = branch; artifact_id = id }))
      × (evict_request_key (record { pr = pos n; branch = [] }) ≡ key_of (decimal n))
      × (evict_request_key (record { pr = pr; branch = branch }) ≡ key_of branch)
unfolding key_of decimal_ℤ
key_of-request_key n id branch pr small named no_number =
    let e : strconv_atoi (decimal n) ≡ some n = strconv_atoi-decimal n ∙ fits n (2 ^ 63) small in
    let key : key_of (decimal n) ≡ text "pr:" ++ decimal n = ap (key_kind (decimal n)) e in
    (
      key,
      ap (λ k. strconv_atoi (trim_prefix k (text "pr:"))) key
          ∙ ap strconv_atoi (trim_prefix-append (text "pr:") (decimal n))
          ∙ e,
      branch_key branch pr id named no_number,
      sym key,
      evict_branch_key branch pr named no_number,
    )
