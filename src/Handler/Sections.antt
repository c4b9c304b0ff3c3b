-- ===== src/Handler/Sections.antt =====
-- The middleware's calls as other goroutines see them: between two sections, each a use of a cache
-- under its lock, of the registered file systems, or of what stands outside, the state may change.
-- The cleanup functions, which run behind the lock, are part of the section that gave them.
pub mod Calls
pub mod Alone
pub mod Entries
pub mod Safe
pub mod Pool
pub mod Runs
pub mod Race
pub mod Lost
pub mod Tidy
pub mod Settled
mod Tests
use swim.Prelude.{ℕ, suc, Option, none, some, Text, Result, ok, err}

-- A section takes the state to another, unless it hangs or panics, and the state it found decides
-- what follows. `trigger` starts the refresh of a key in the background, once the key is marked.
pub data Code (W A : Type 0) : Type 0 where
  finish : Result Text A → Code W A
  section : (W → Option W) → (W → Code W A) → Code W A
  trigger : Text → Code W A → Code W A

module _ {W A : Type 0} where
  unfoldable pub look : {B : Type 0} → (W → B) → (B → Code W A) → Code W A
  look f k = section some (λ w. k (f w))

  unfoldable pub change : (W → W) → Code W A → Code W A
  change f c = section (λ w. some (f w)) (λ _. c)

  unfoldable pub transact : {B : Type 0} → (W → W × B) → (B → Code W A) → Code W A
  transact f k = section (λ w. some (f w).0) (λ w. k (f w).1)

  abbrev pub on_result :
      {B : Type 0} → (B → Code W A) → (Text → Code W A) → Result Text B → Code W A
  on_result k h (ok b) = k b
  on_result k h (err e) = h e

abbrev pub resume : {W X : Type 0} → Option W → (W → Option X) → Option X
resume none k = none
resume (some w) k = k w

-- The code behind another, for its result or its error.
unfoldable pub handle : {W A B : Type 0} → Code W A → (A → Code W B) → (Text → Code W B) → Code W B
handle (finish r) k h = on_result k h r
handle (section f c) k h = section f (λ w. handle (c w) k h)
handle (trigger key c) k h = trigger key (handle c k h)

module _ {W : Type 0} (mark : Text → W → W) where
  -- A run that no other goroutine disturbs.
  unfoldable pub alone : {A : Type 0} → Code W A → W → Option (W × Result Text A)
  alone (finish r) w = some (w, r)
  alone (section f c) w = resume (f w) (alone (c w))
  alone (trigger key c) w = alone c (mark key w)

  -- A run where others change the state before each section: the `n`th time by `others n`.
  unfoldable pub among : {A : Type 0} → (ℕ → W → W) → ℕ → Code W A → W → Option (W × Result Text A)
  among others n (finish r) w = some (w, r)
  among others n (section f c) w =
      let w' = others n w in resume (f w') (among others (suc n) (c w'))
  among others n (trigger key c) w = among others (suc n) c (mark key (others n w))
