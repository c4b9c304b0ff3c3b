-- ===== src/Prelude/Texts.antt =====
-- What the searches of package strings find, as equations between texts.
use mathlib.Core.Path.{◌≡◌, refl, sym, ap, ◌∙◌}
use mathlib.Core.Logic.{◌↔◌, ◌⊎◌, inl, inr}
use mathlib.Core.Bool.{Bool, true, false, ◌&&◌, ◌||◌}
use mathlib.Core.List.{[], ◌∷◌, ◌++◌, reverse, reverse-append, reverse-reverse}
use native.Mathlib.Decide.{ℕ_discrete}
use native.Mathlib.Omega.{arith}
use swim.Prelude.Tests.{◌==◌, nat_eq}
use swim.Prelude.Bytes.{Text, has_prefix, has_suffix, contains, has_prefix-append}

-- `s` starts with `t`, ends with it, or has it somewhere.
abbrev pub Starts : Text → Text → Type 0
Starts s t = (q : Text) × (s ≡ t ++ q)

abbrev pub Ends : Text → Text → Type 0
Ends s t = (p : Text) × (s ≡ p ++ t)

abbrev pub Infix : Text → Text → Type 0
Infix s t = (p : Text) × (q : Text) × (s ≡ p ++ (t ++ q))

pub and_true : (a b : Bool) → a && b ≡ true → (a ≡ true) × (b ≡ true)
and_true true b h = (refl, h)
and_true false b h = absurd (cc)

pub or_true : (a b : Bool) → a || b ≡ true → (a ≡ true) ⊎ (b ≡ true)
or_true true b h = inl refl
or_true false b h = inr h

pub or_right : (a b : Bool) → b ≡ true → a || b ≡ true
or_right true b h = refl
or_right false b h = h

has_prefix→Starts : (s t : Text) → has_prefix s t ≡ true → Starts s t
has_prefix→Starts s [] h = (s, refl)
has_prefix→Starts [] (d ∷ t) h = absurd (cc)
has_prefix→Starts (c ∷ s) (d ∷ t) h = elim (ℕ_discrete c d) [
  | yes same ↦
      let (q, e) = has_prefix→Starts s t (and_true (c == d) (has_prefix s t) h).1 in (q, cc)
  | no differ ↦ absurd (ground arith)
]

Starts→has_prefix : (s t : Text) → Starts s t → has_prefix s t ≡ true
Starts→has_prefix s t (q, e) = rw e (has_prefix-append t q)

has_suffix→Ends : (s t : Text) → has_suffix s t ≡ true → Ends s t
has_suffix→Ends s t h =
    let (q, e) = has_prefix→Starts (reverse s) (reverse t) h in
    (
      reverse q,
      sym (reverse-reverse s)
          ∙ ap reverse e
          ∙ reverse-append (reverse t) q
          ∙ ap (λ u. reverse q ++ u) (reverse-reverse t),
    )

Ends→has_suffix : (s t : Text) → Ends s t → has_suffix s t ≡ true
Ends→has_suffix s t (p, e) =
    Starts→has_prefix (reverse s) (reverse t) (reverse p, ap reverse e ∙ reverse-append p t)

pub has_suffix-Ends : (s t : Text) → has_suffix s t ≡ true ↔ Ends s t
has_suffix-Ends s t = (has_suffix→Ends s t, Ends→has_suffix s t)

contains→Infix : (s t : Text) → contains s t ≡ true → Infix s t
unfolding contains
contains→Infix [] [] h = ([], [], refl)
contains→Infix [] (d ∷ t) h = absurd (cc)
contains→Infix (c ∷ s) t h = elim (or_true (has_prefix (c ∷ s) t) (contains s t) h) [
  | inl first ↦ let (q, e) = has_prefix→Starts (c ∷ s) t first in ([], q, e)
  | inr later ↦ let (p, q, e) = contains→Infix s t later in (c ∷ p, q, ap (λ u. c ∷ u) e)
]

contains-start : (s t : Text) → has_prefix s t ≡ true → contains s t ≡ true
unfolding contains
contains-start [] [] h = refl
contains-start [] (d ∷ t) h = absurd (cc)
contains-start (c ∷ s) t h = rw h refl

contains-append : (p s t : Text) → has_prefix s t ≡ true → contains (p ++ s) t ≡ true
unfolding contains
contains-append [] s t h = contains-start s t h
contains-append (c ∷ p) s t h =
    or_right (has_prefix (c ∷ p ++ s) t) (contains (p ++ s) t) (contains-append p s t h)

pub contains-Infix : (s t : Text) → contains s t ≡ true ↔ Infix s t
contains-Infix s t =
    (contains→Infix s t, λ (p, q, e). rw e (contains-append p (t ++ q) t (has_prefix-append t q)))
