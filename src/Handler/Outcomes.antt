-- ===== src/Handler/Outcomes.antt =====
-- Claims about a call of the middleware: `N` where it does not return, `P` of a result and the
-- state with it, `Q` of the state behind an error.
use swim.Prelude.{
  ◌≡◌, refl, Bool, true, false, Option, none, some, Text, Result, ok, err, if◌then◌else◌,
}
use swim.Handler.{Call, caught}

unfoldable pub Holds :
    {W A : Type 0} → Type 0 → (A → W → Type 0) → (W → Type 0) → Option (W × Result Text A) → Type 0
Holds N P Q none = N
Holds N P Q (some (w, ok a)) = P a w
Holds N P Q (some (w, err e)) = Q w

module _ {W : Type 0} (N : Type 0) where
  pub Holds-ok :
      {A : Type 0} (P : A → W → Type 0) (Q : W → Type 0) (a : A) (w : W)
      → P a w
      → Holds N P Q (some (w, ok a))
  unfolding Holds
  Holds-ok P Q a w p = p

  pub Holds-err :
      {A : Type 0} (P : A → W → Type 0) (Q : W → Type 0) (e : Text) (w : W)
      → Q w
      → Holds N P Q (some (w, err e))
  unfolding Holds
  Holds-err P Q e w q = q

  pub Holds-result :
      {A : Type 0} (P : A → W → Type 0) (Q : W → Type 0) (r : Result Text A) (w : W)
      → ((a : A) → r ≡ ok a → P a w)
      → Q w
      → Holds N P Q (some (w, r))
  unfolding Holds
  Holds-result P Q (ok a) w p q = p a refl
  Holds-result P Q (err e) w p q = q

  pub caught-Holds :
      {A B : Type 0} (P : A → W → Type 0) (Q : W → Type 0) (P' : B → W → Type 0) (Q' : W → Type 0)
      (f : A → Call W B) (h : Text → Call W B) (r : Option (W × Result Text A))
      → Holds N P Q r
      → ((a : A) (w : W) → P a w → Holds N P' Q' (f a w))
      → ((e : Text) (w : W) → Q w → Holds N P' Q' (h e w))
      → Holds N P' Q' (caught f h r)
  unfolding Holds caught
  caught-Holds P Q P' Q' f h none k on_ok on_err = k
  caught-Holds P Q P' Q' f h (some (w, ok a)) k on_ok on_err = on_ok a w k
  caught-Holds P Q P' Q' f h (some (w, err e)) k on_ok on_err = on_err e w k

  pub if-Holds :
      {A : Type 0} (P : A → W → Type 0) (Q : W → Type 0) (b : Bool) (m n : Call W A) (w : W)
      → Holds N P Q (m w)
      → Holds N P Q (n w)
      → Holds N P Q ((if b then m else n) w)
  if-Holds P Q true m n w km kn = km
  if-Holds P Q false m n w km kn = kn
