-- ===== src/Prelude/Yields.antt =====
-- A claim about the result of a call, if there is one.
use swim.Prelude.Bytes.{Text}
use swim.Prelude.Errors.{Result, ok, err}
use swim.Prelude.Actions.{Action, and_then, caught, wrapped}

unfoldable pub Yields : {S A : Type 0} → (A → Type 0) → S × Result Text A → Type 0
Yields P (s, ok a) = P a
Yields P (s, err e) = Unit

module _ {S : Type 0} where
  pub Yields-ok : {A : Type 0} (P : A → Type 0) (a : A) (s : S) → P a → Yields P (s, ok a)
  unfolding Yields
  Yields-ok P a s p = p

  pub Yields-err : {A : Type 0} (P : A → Type 0) (e : Text) (s : S) → Yields P (s, err e)
  unfolding Yields
  Yields-err P e s = tt

  pub Yields-any : {A : Type 0} (r : S × Result Text A) → Yields (λ _. Unit) r
  unfolding Yields
  Yields-any (s, ok a) = tt
  Yields-any (s, err e) = tt

  pub and_then-Yields :
      {A B : Type 0} (P : A → Type 0) (Q : B → Type 0) (f : A → Action S Text B)
      (r : S × Result Text A)
      → Yields P r
      → ((a : A) (s : S) → P a → Yields Q (f a s))
      → Yields Q (and_then f r)
  unfolding Yields and_then
  and_then-Yields P Q f (s, ok a) y k = k a s y
  and_then-Yields P Q f (s, err e) y k = tt

  pub caught-Yields :
      {A B : Type 0} (P : A → Type 0) (Q : B → Type 0) (f : A → Action S Text B)
      (h : Text → Action S Text B) (r : S × Result Text A)
      → Yields P r
      → ((a : A) (s : S) → P a → Yields Q (f a s))
      → ((e : Text) (s : S) → Yields Q (h e s))
      → Yields Q (caught f h r)
  unfolding Yields caught
  caught-Yields P Q f h (s, ok a) y k l = k a s y
  caught-Yields P Q f h (s, err e) y k l = l e s

  pub wrapped-Yields :
      {A : Type 0} (P : A → Type 0) (f : Text → Text) (r : S × Result Text A)
      → Yields P r
      → Yields P (wrapped f r)
  unfolding Yields wrapped
  wrapped-Yields P f (s, ok a) y = y
  wrapped-Yields P f (s, err e) y = tt
