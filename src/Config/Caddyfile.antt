-- ===== src/Config/Caddyfile.antt =====
-- What a Caddyfile can set.
use mathlib.Core.Logic.{if_pos, if_neg}
use mathlib.Core.Option.{some-injective}
use swim.Prelude.{
  ℕ, ◌<◌, ◌≤◌, ◌≡◌, refl, subst, arith, Bool, true, false, Option, none, some, [], ◌∷◌, Text,
  text_eq, to_lower, Result, ok, err, Eq, All,
}
use swim.Prelude.Int.{ℤ, pos}
use swim.Prelude.Dict.{Dict, lookup}
use swim.Prelude.Actions.{Action, and_then}
use swim.Caddy.{ConfigError, Dispenser, arg, arg_found}
use swim.Caddy.Loops.{
  Reads, block-Reads, directives-Reads, Forward, Done, block-Done, directives-Done,
}
use swim.Config.{strconv_atoi, parse_byte_size}
use swim.Config.Options.{
  Options, zero_options, Setter, setters, set_result, apply_setter, unmarshal_option,
  unmarshal_caddyfile, parsed,
}

lookup-All :
    {K V : Type 0} ⦃eq : Eq K⦄ (P : V → Type 0) (k : K) (d : Dict K V)
    → All (λ (e : K × V). P e.1) d
    → (v : V) → lookup k d ≡ some v
    → P v
unfolding lookup
lookup-All P k [] h v e = absurd (cc)
lookup-All ⦃eq⦄ P k ((j, u) ∷ d) (p, h) v e = elim (eq.dec k j) [
  | yes same ↦ subst P (some-injective u v (rw (if_pos _ same) at e)) p
  | no differ ↦ lookup-All P k d h v (rw (if_neg _ differ) at e)
]

-- The number of artifacts is not negative.
abbrev pub Counted : Options → Type 0
Counted g = (n : ℕ) × (g.max_artifacts ≡ pos n)

unfoldable OkCounted : Result ConfigError Options → Type 0
OkCounted (ok g) = Counted g
OkCounted (err e) = Unit

abbrev KeepsCounted : Setter → Type 0
KeepsCounted f = (g : Options) (v : Text) → Counted g → OkCounted (f g v)

parsed-Counted :
    {A : Type 0} (name : Text) (f : Options → A → Options)
    → ((g : Options) (a : A) → Counted g → Counted (f g a))
    → (g : Options) (v : Text) (o : Option A) → Counted g
    → OkCounted (parsed name f g v o)
unfolding parsed OkCounted
parsed-Counted name f keep g v none k = tt
parsed-Counted name f keep g v (some a) k = keep g a k

text-Counted :
    (f : Options → Text → Options)
    → ((g : Options) (v : Text) → Counted g → Counted (f g v))
    → KeepsCounted (λ g v. ok (f g v))
unfolding OkCounted
text-Counted f keep g v k = keep g v k

module _ (parse_duration : Text → Option ℤ) where
  setters-Counted : All (λ (e : Text × Setter). KeepsCounted e.1) (setters parse_duration)
  setters-Counted =
      let duration : (name : Text) (f : Options → ℤ → Options)
          → ((g : Options) (a : ℤ) → Counted g → Counted (f g a))
          → KeepsCounted (λ g v. parsed name f g v (parse_duration v)) =
        (λ name f keep g v k. parsed-Counted name f keep g v (parse_duration v) k) in
      let size : (name : Text) (f : Options → ℤ → Options)
          → ((g : Options) (a : ℤ) → Counted g → Counted (f g a))
          → KeepsCounted (λ g v. parsed name f g v (parse_byte_size v)) =
        (λ name f keep g v k. parsed-Counted name f keep g v (parse_byte_size v) k) in
      (
        text-Counted _ (λ g v k. k),
        (
          text-Counted _ (λ g v k. k),
          (
            text-Counted _ (λ g v k. k),
            (
              text-Counted _ (λ g v k. k),
              (
                text-Counted _ (λ g v k. k),
                (
                  text-Counted _ (λ g v k. k),
                  (
                    text-Counted _ (λ g v k. k),
                    (
                      duration _ _ (λ g a k. k),
                      (
                        λ g v k. parsed-Counted _ _ (λ g n k. (n, refl)) g v (strconv_atoi v) k,
                        (
                          size _ _ (λ g a k. k),
                          (
                            size _ _ (λ g a k. k),
                            (
                              text-Counted _ (λ g v k. k),
                              (
                                text-Counted _ (λ g v k. k),
                                (
                                  text-Counted _ (λ g v k. k),
                                  (
                                    duration _ _ (λ g a k. k),
                                    (
                                      duration _ _ (λ g a k. k),
                                      (
                                        text-Counted _ (λ g v k. k),
                                        (
                                          text-Counted _ (λ g v k. k),
                                          (text-Counted _ (λ g v k. k), tt),
                                        ),
                                      ),
                                    ),
                                  ),
                                ),
                              ),
                            ),
                          ),
                        ),
                      ),
                    ),
                  ),
                ),
              ),
            ),
          ),
        ),
      )

  module _ {D : Type 0} (dispenser : Dispenser D) where
    set_result-Counted :
        (r : Result ConfigError Options) (d : D)
        → OkCounted r
        → Reads dispenser Counted (some (set_result parse_duration dispenser r d))
    unfolding Reads OkCounted
    set_result-Counted (ok h) d p = p
    set_result-Counted (err e) d p = tt

    set-Counted :
        (f : Setter) (g : Options) (r : D × Result ConfigError Text)
        → KeepsCounted f
        → Counted g
        → Reads dispenser Counted
            (some (and_then (λ v. set_result parse_duration dispenser (f g v)) r))
    unfolding Reads and_then
    set-Counted f g (d, err e) keep k = tt
    set-Counted f g (d, ok v) keep k = set_result-Counted (f g v) d (keep g v k)

    apply-Counted :
        (key : Text) (o : Option Setter) (g : Options) (d : D)
        → ((f : Setter) → o ≡ some f → KeepsCounted f)
        → Counted g
        → Reads dispenser Counted (some (apply_setter parse_duration dispenser key o g d))
    unfolding Reads
    apply-Counted key none g d keep k = tt
    apply-Counted key (some f) g d keep k = set-Counted f g (arg dispenser d) (keep f refl) k

    option-Counted :
        (g : Options) (d : D)
        → Counted g
        → Reads dispenser Counted (some (unmarshal_option parse_duration dispenser g d))
    unfolding unmarshal_option
    option-Counted g d k =
        apply-Counted _ _ g d
          (λ f found.
            lookup-All KeepsCounted (to_lower (dispenser.val d)) (setters parse_duration)
              setters-Counted f found)
          k

    -- Whatever a Caddyfile says, the options that are read from it have a number of artifacts that
    -- is not negative.
    pub unmarshal-Counted :
        (fuel : ℕ) (d : D)
        → Reads dispenser Counted (unmarshal_caddyfile parse_duration dispenser fuel zero_options d)
    unfolding unmarshal_caddyfile
    unmarshal-Counted fuel d =
        directives-Reads dispenser Counted _ (block-Reads dispenser Counted _ option-Counted fuel)
          fuel zero_options d (0, refl)

    module _ (f : Forward dispenser) where
      found-Done :
          (h : Text → Action D ConfigError Options) (n : ℕ) (r : D × Bool)
          → ((v : Text) (d : D) → (h v d).0 ≡ d)
          → f.left r.0 ≤ n
          → Done dispenser f n (some (and_then h (arg_found dispenser r)))
      unfolding Done and_then
      found-Done h n (d, true) same le = rw (same (dispenser.val d) d) le
      found-Done h n (d, false) same le = le

      apply-Done :
          (key : Text) (o : Option Setter) (g : Options) (d : D)
          → Done dispenser f (f.left d) (some (apply_setter parse_duration dispenser key o g d))
      unfolding arg Done
      apply-Done key none g d = omega arith
      apply-Done key (some h) g d =
          found-Done _ (f.left d) (dispenser.next_arg d) (λ v d. refl) (f.arg_stays d)

      -- Where a dispenser moves forward, and with more fuel than there are tokens, every Caddyfile
      -- is read to an end, with an error or without.
      pub unmarshal-Done :
          (fuel : ℕ) (g : Options) (d : D)
          → f.left d < fuel
          → Done dispenser f (f.left d) (unmarshal_caddyfile parse_duration dispenser fuel g d)
      unfolding unmarshal_caddyfile unmarshal_option
      unmarshal-Done fuel g d enough =
          directives-Done dispenser f _ (f.left d)
            (λ a v less.
              block-Done dispenser f _ fuel (λ b u _. apply-Done _ _ b u) fuel a v (omega arith)
                (omega arith))
            fuel g d enough (omega arith)
