-- ===== src/Prelude/Actions.antt =====
-- Calls that change the world outside and may fail: a state is passed on, and the rest is skipped
-- behind an error.
use swim.Prelude.Errors.{Result, ok, err}

abbrev pub Action : Type 0 → Type 0 → Type 0 → Type 0
Action S E A = S → S × Result E A

unfoldable pub and_then : {S E A B : Type 0} → (A → Action S E B) → S × Result E A → S × Result E B
and_then f (s, ok a) = f a s
and_then f (s, err e) = (s, err e)

infixl 5 ◌>>=◌
abbrev pub ◌>>=◌ : {S E A B : Type 0} → Action S E A → (A → Action S E B) → Action S E B
(m >>= f) s = and_then f (m s)

abbrev pub return : {S E A : Type 0} → A → Action S E A
return a s = (s, ok a)

abbrev pub fail : {S E A : Type 0} → E → Action S E A
fail e s = (s, err e)

-- A call whose result is not read
abbrev pub run : {S E : Type 0} → (S → S) → Action S E Unit
run f s = (f s, ok tt)

-- The same, with the error of a call wrapped or handled
unfoldable pub caught :
    {S E A B : Type 0} → (A → Action S E B) → (E → Action S E B) → S × Result E A → S × Result E B
caught f h (s, ok a) = f a s
caught f h (s, err e) = h e s

abbrev pub handle :
    {S E A B : Type 0} → (A → Action S E B) → (E → Action S E B) → Action S E A → Action S E B
handle f h m s = caught f h (m s)

unfoldable pub wrapped : {S E A : Type 0} → (E → E) → S × Result E A → S × Result E A
wrapped f (s, ok a) = (s, ok a)
wrapped f (s, err e) = (s, err (f e))

abbrev pub wrap : {S E A : Type 0} → (E → E) → Action S E A → Action S E A
wrap f m s = wrapped f (m s)
