-- ===== src/Handler/Provision/Limits.antt =====
-- The limit of the artifact cache that a Caddyfile comes to.
use swim.Prelude.{
  ℕ, zero, suc, ◌≡◌, refl, sym, subst, arith, Bool, true, false, Option, none, some, if◌then◌else◌,
  nat_eq, Text, Result, ok, err, ◌>>=◌,
}
use swim.Prelude.Int.{ℤ, pos}
use swim.Prelude.Dict.{NodupKeys}
use swim.Cache.Artifact.{new_artifact_cache}
use swim.Caddy.{ConfigError, Dispenser}
use swim.Caddy.Loops.{Reads}
use swim.Config.Options.{Options, zero_options, unmarshal_caddyfile}
use swim.Config.Caddyfile.{Counted, unmarshal-Counted}
use swim.Handler.{State}
use swim.Handler.Provision.{
  Outside, Provisioned, provision, with_defaults, resolve_options, or_number, repo_parts,
  need_workflow, wrapped, first_state, preview_of, ticker_panics,
}

-- `P` of what there is, where there is no error and no panic.
unfoldable OkHolds : {A : Type 0} → (A → Type 0) → Result Text (Option A) → Type 0
OkHolds P (ok (some a)) = P a
OkHolds P (ok none) = Unit
OkHolds P (err e) = Unit

unless-OkHolds :
    {A : Type 0} (P : A → Type 0) (b : Bool) (a : A)
    → P a
    → OkHolds P (ok (if b then none else some a))
unfolding OkHolds
unless-OkHolds P true a p = tt
unless-OkHolds P false a p = p

bind-OkHolds :
    {A B : Type 0} (P : B → Type 0) (r : Result Text A) (f : A → Result Text (Option B))
    → ((a : A) → OkHolds P (f a))
    → OkHolds P (r >>= f)
unfolding OkHolds
bind-OkHolds P (ok a) f h = h a
bind-OkHolds P (err e) f h = tt

or_number-positive :
    (z : ℤ) (n m : ℕ) → z ≡ pos n → (k : ℕ) × (or_number z (pos (suc m)) ≡ pos (suc k))
or_number-positive z zero m e = (m, rw e refl)
or_number-positive z (suc n) m e = (n, rw e (ground arith))

module _ {S Body Fs Handle Template : Type 0} (o : Outside S Body Fs Handle Template) where
  abbrev pub Limited : State S Fs Handle → Type 0
  Limited w =
      (m : ℕ) × (w.artifact_cache.max_size ≡ pos (suc m)) × NodupKeys w.artifact_cache.entries

  -- The state is the first one for the options with their defaults.
  abbrev Starts : Options → S → Provisioned S Body Fs Handle Template → Type 0
  Starts options s p = p.state ≡ first_state o (with_defaults (resolve_options o options)) s

  provision-Starts :
      (options : Options) (s : S) → OkHolds (Starts options s) (provision o options s)
  unfolding provision
  provision-Starts options s =
      let g = with_defaults (resolve_options o options) in
      bind-OkHolds _ (repo_parts (o.replace_all options.repo)) _ (λ parts.
        bind-OkHolds _ (need_workflow (resolve_options o options)) _ (λ _.
          bind-OkHolds _ (wrapped _ _) _ (λ find_submatch.
            bind-OkHolds _ (wrapped _ _) _ (λ template.
              unless-OkHolds (Starts options s) (ticker_panics g)
                (record {
                  options = g;
                  preview = preview_of o g parts find_submatch;
                  state = first_state o g s;
                  template = template;
                })
                refl))))

  pub provision-first :
      (options : Options) (s : S) (p : Provisioned S Body Fs Handle Template)
      → provision o options s ≡ ok (some p)
      → p.state ≡ first_state o (with_defaults (resolve_options o options)) s
  unfolding OkHolds
  provision-first options s p given =
      subst (OkHolds (Starts options s)) given (provision-Starts options s)

  first_state-Limited :
      (options : Options) (s : S)
      → Counted options
      → Limited (first_state o (with_defaults (resolve_options o options)) s)
  unfolding with_defaults resolve_options new_artifact_cache
  first_state-Limited options s (n, e) =
      let (k, positive) = or_number-positive options.max_artifacts n 49 e in (k, positive, tt)

  Reads-ok :
      {D : Type 0} (dispenser : Dispenser D) (P : Options → Type 0)
      (r : Option (D × Result ConfigError Options)) (d : D) (g : Options)
      → Reads dispenser P r
      → r ≡ some (d, ok g)
      → P g
  unfolding Reads
  Reads-ok dispenser P r d g h e = subst (Reads dispenser P) e h

  -- Where the options of a Caddyfile are provisioned without an error or a panic, the limit of the artifact
  -- cache is positive and its ids are distinct, whatever the Caddyfile says.
  pub caddyfile-Limited :
      {D : Type 0} (parse_duration : Text → Option ℤ) (dispenser : Dispenser D) (fuel : ℕ) (d e : D)
      (options : Options) (s : S) (p : Provisioned S Body Fs Handle Template)
      → unmarshal_caddyfile parse_duration dispenser fuel zero_options d ≡ some (e, ok options)
      → provision o options s ≡ ok (some p)
      → Limited p.state
  caddyfile-Limited parse_duration dispenser fuel d e options s p read given =
      let counted =
        Reads-ok dispenser Counted _ e options (unmarshal-Counted parse_duration dispenser fuel d)
          read in
      subst Limited (sym (provision-first options s p given))
        (first_state-Limited options s counted)
