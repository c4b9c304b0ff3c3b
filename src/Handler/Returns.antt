-- ===== src/Handler/Returns.antt =====
-- Where the artifact cache has a positive limit, each call of the middleware returns, whether it
-- runs alone or among other goroutines.
pub mod Api
pub mod Served
use swim.Prelude.{
  ℕ, suc, ◌≡◌, refl, sym, ap, ◌∙◌, subst, Option, none, some, List, [], ◌∷◌, ◌++◌, Text, text_eq,
  Result, ok, err,
}
use swim.Handler.{GithubPreview, Layered, State}
use swim.Handler.Resolve.{full_resolve, resolve_and_register, trigger_background_refresh}
use swim.Handler.Bounded.{Bounded, trigger-Bounded}
use swim.Handler.Outcomes.{Holds}
use swim.Handler.Sections.{Code, finish, section, trigger, alone, among, resume}
use swim.Handler.Sections.Alone.{whole, full_resolve-whole, resolve_and_register-whole}
use swim.Handler.Sections.Calls.{full_resolve_code, resolve_and_register_code}
use swim.Handler.Sections.Safe.{Safe, Steady}
use swim.Handler.Sections.Safe.Calls.{full_resolve-Safe, resolve_and_register-Safe}
use swim.Handler.Sections.Entries.{Entry}
use swim.Handler.Sections.Pool.{Thread, Reach}
use swim.Handler.Sections.Pool.Sound.{Reach-Sound, at_middle}

module _ {S Body Fs Handle : Type 0} (g : GithubPreview S Body Fs Handle) where
  abbrev W : Type 0
  W = State S Fs Handle

  abbrev BoundedAt : {A : Type 0} → A → W → Type 0
  BoundedAt _ w = Bounded g w

  -- It returns, with a result or an error.
  abbrev pub Returns : {A : Type 0} → Option (W × Result Text A) → Type 0
  Returns = Holds ⊥ BoundedAt (Bounded g)

  finish-Returns : {A : Type 0} (r : Result Text A) (w : W) → Bounded g w → Returns (some (w, r))
  unfolding Holds
  finish-Returns (ok a) w b = b
  finish-Returns (err e) w b = b

  resume-Returns :
      {A : Type 0} (o : Option W) (k : W → Option (W × Result Text A)) (w : W)
      → (v : W) × (o ≡ some v) × Steady g w v
      → ((v : W) → Bounded g v → Returns (k v))
      → Returns (resume o k)
  resume-Returns o k w (v, ran, steady) rest =
      subst (λ o'. Returns (resume o' k)) (sym ran) (rest v steady.0)

  alone-Returns :
      {A : Type 0} (c : Code W A) (w : W) → Safe g c → Bounded g w → Returns (whole g c w)
  unfolding alone Safe
  alone-Returns (finish r) w on b = finish-Returns r w b
  alone-Returns (section f c) w on b =
      let (v, ran, steady, rest) = on w b in
      resume-Returns (f w) _ w (v, ran, steady) (λ u bu. alone-Returns (c w) u rest bu)
  alone-Returns (trigger key c) w on b = alone-Returns c _ on (trigger-Bounded g key w b)

  module _ (others : ℕ → W → W)
      (keep : (n : ℕ) (w : W) → Bounded g w → Bounded g (others n w)) where
    among-Returns :
        {A : Type 0} (n : ℕ) (c : Code W A) (w : W)
        → Safe g c
        → Bounded g w
        → Returns (among (trigger_background_refresh g) others n c w)
    unfolding among Safe
    among-Returns n (finish r) w on b = finish-Returns r w b
    among-Returns n (section f c) w on b =
        let (v, ran, steady, rest) = on (others n w) (keep n w b) in
        resume-Returns (f (others n w)) _ (others n w) (v, ran, steady)
          (λ u bu. among-Returns (suc n) (c (others n w)) u rest bu)
    among-Returns n (trigger key c) w on b =
        among-Returns (suc n) c _ on (trigger-Bounded g key (others n w) (keep n w b))

  -- From a state with a positive limit and distinct ids in the artifact cache and no key under
  -- refresh, whatever sections any number of goroutines have run, each of them, in whatever it has
  -- left to do, ends with a result or an error after finitely many sections, and the limit stays
  -- positive. Before each of its sections the others may change the state in any way that keeps the
  -- limit positive and the ids distinct.
  pub Reach-Returns :
      (Allowed : Entry → Type 0) (w v : W) (before after : List (Thread g)) (job : Option Text)
      (c : Code W Text) (others : ℕ → W → W)
      → Bounded g w
      → w.refresh_active ≡ []
      → Reach g Allowed w [] v (before ++ (job, c) ∷ after)
      → ((n : ℕ) (u : W) → Bounded g u → Bounded g (others n u))
      → Returns (among (trigger_background_refresh g) others 0 c v)
  Reach-Returns Allowed w v before after job c others b unmarked reach keep =
      let sound = Reach-Sound g Allowed w v (before ++ (job, c) ∷ after) b unmarked reach in
      among-Returns others keep 0 c v (at_middle g before after (job, c) v sound) sound.bounded

  pub full_resolve-Returns : (key : Text) (w : W) → Bounded g w → Returns (full_resolve g key w)
  full_resolve-Returns key w b =
      subst Returns (full_resolve-whole g key w)
        (alone-Returns (full_resolve_code g key) w (full_resolve-Safe g key) b)

  -- Where the artifact cache has a positive limit and distinct ids, `resolveAndRegister` returns,
  -- whatever GitHub answers, and leaves the cache so.
  pub resolve_and_register-Returns :
      (key : Text) (w : W) → Bounded g w → Returns (resolve_and_register g key w)
  resolve_and_register-Returns key w b =
      subst Returns (resolve_and_register-whole g key w)
        (alone-Returns (resolve_and_register_code g key) w (resolve_and_register-Safe g key) b)
