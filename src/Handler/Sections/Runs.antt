-- ===== src/Handler/Sections/Runs.antt =====
-- Some sections of one goroutine, one behind the other.
use swim.Prelude.{
  ℕ, ◌≡◌, refl, ap, ◌∙◌, subst, Bool, true, false, Option, some, List, ◌∷◌, ◌++◌, Text, text_eq,
  nat_eq, ok, if◌then◌else◌,
}
use swim.Prelude.Actions.{Action}
use swim.Handler.{GithubPreview, Layered, State, reached, artifact_get}
use swim.Handler.Sections.Alone.{whole}
use swim.Handler.Sections.{alone, resume, Code, section, handle, look, change, transact, on_result}
use swim.Handler.Sections.Calls.{ask, failing, with_artifact_code, looked_up_code}
use swim.Handler.Sections.Entries.{Entry}
use swim.Handler.Sections.Pool.{Thread, runs, Reach, next}

-- Some sections of one goroutine: it goes from the state `w` and the code `c` on.
pub data Runs {W A : Type 0} (w : W) (c : Code W A) : W → Code W A → Type 0 where
  here : Runs w c w c
  further :
      (u v : W) (f : W → Option W) (d : W → Code W A)
      → Runs w c u (section f d)
      → f u ≡ some v
      → Runs w c v (d u)

module _ {W A : Type 0} where
  pub Runs-trans :
      (w u : W) (c d : Code W A) (v : W) (e : Code W A) → Runs w c u d → Runs u d v e → Runs w c v e
  Runs-trans w u c d v e r here = r
  Runs-trans w u c d v e r (further x _ f k s run) =
      further x v f k (Runs-trans w u c d x (section f k) r s) run

  pub Runs-handle :
      {B : Type 0} (w : W) (c : Code W A) (k : A → Code W B) (h : Text → Code W B) (v : W)
      (d : Code W A)
      → Runs w c v d
      → Runs w (handle c k h) v (handle d k h)
  unfolding handle
  Runs-handle w c k h v d here = here
  Runs-handle w c k h v d (further u _ f e r run) =
      further u v f (λ x. handle (e x) k h) (Runs-handle w c k h u (section f e) r) run

  pub Runs-look :
      {B : Type 0} (w : W) (f : W → B) (k : B → Code W A) (b : B)
      → f w ≡ b
      → Runs w (look f k) w (k b)
  unfolding look
  Runs-look w f k b e = subst (λ x. Runs w (look f k) w (k x)) e (further w w some _ here refl)

  pub Runs-transact :
      {B : Type 0} (w : W) (f : W → W × B) (k : B → Code W A) (v : W) (b : B)
      → f w ≡ (v, b)
      → Runs w (transact f k) v (k b)
  unfolding transact
  Runs-transact {B = B} w f k v b e =
      subst (λ (x : W × B). Runs w (transact f k) x.0 (k x.1)) e (further w (f w).0 _ _ here refl)

  pub Runs-change : (w : W) (f : W → W) (c : Code W A) → Runs w (change f c) (f w) c
  unfolding change
  Runs-change w f c = further w (f w) _ _ here refl

module _ {S Body Fs Handle : Type 0} (g : GithubPreview S Body Fs Handle) where
  abbrev W : Type 0
  W = State S Fs Handle

  -- The goroutine in the middle runs its sections.
  pub Reach-Runs :
      (Allowed : Entry → Type 0) (first w : W) (ts before after : List (Thread g))
      (job : Option Text) (c : Code W Text) (v : W) (d : Code W Text)
      → Reach g Allowed first ts w (before ++ (job, c) ∷ after)
      → Runs w c v d
      → Reach g Allowed first ts v (before ++ (job, d) ∷ after)
  Reach-Runs Allowed first w ts before after job c v d reach here = reach
  Reach-Runs Allowed first w ts before after job c v d reach (further u _ f k r run) =
      next u v _ _ (Reach-Runs Allowed first w ts before after job c u (section f k) reach r)
        (runs before after job f k u v run)

  pub if-Runs :
      {A : Type 0} (b : Bool) (c d : Code W A) (w v : W) (r : Code W A)
      → b ≡ true
      → Runs w c v r
      → Runs w (if b then c else d) v r
  if-Runs true c d w v r e on = on
  if-Runs false c d w v r e on = absurd (cc)

  pub ask-Runs :
      {A B : Type 0} (m : Action S Text A) (k : A → Code W B) (w : W) (s : S) (a : A)
      → m w.outer ≡ (s, ok a)
      → Runs w (ask g m k) (record w { outer = s }) (k a)
  ask-Runs m k w s a e =
      Runs-transact w (λ u. reached g u (m u.outer)) (on_result k (failing g)) _ (ok a)
        (ap (reached g w) e)

  pub with_artifact-Runs :
      {A : Type 0} (id : ℕ) (f : Layered Fs → Code W A) (miss : Code W A) (w v : W)
      (fs : Layered Fs)
      → artifact_get g id w ≡ (v, some fs)
      → Runs w (with_artifact_code g id f miss) v (f fs)
  unfolding with_artifact_code
  with_artifact-Runs id f miss w v fs got =
      Runs-transact w (artifact_get g id) (looked_up_code g f miss) v (some fs) got

  -- Sections up to the end of the code are a run that nothing disturbs.
  pub Runs-whole :
      {A : Type 0} (w : W) (c : Code W A) (v : W) (d : Code W A)
      → Runs w c v d
      → whole g c w ≡ whole g d v
  unfolding alone
  Runs-whole w c v d here = refl
  Runs-whole w c v d (further u _ f k r run) =
      Runs-whole w c u (section f k) r ∙ ap (λ o. resume o (whole g (k u))) run
