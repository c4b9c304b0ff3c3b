-- ===== src/Handler/Sections/Safe.antt =====
-- Where the artifact cache has a positive limit, no section of a call hangs or panics, whatever ran
-- before it; each leaves the limit positive, and the keys under refresh as they are.
pub mod Calls
pub mod Entries
use swim.Prelude.{
  ℕ, ◌≡◌, refl, Bool, true, false, some, Text, text_eq, nat_eq, Result, ok, err, if◌then◌else◌,
}
use swim.Prelude.Actions.{Action}
use swim.Prelude.Yields.{Yields}
use swim.Handler.{
  GithubPreview, Layered, State, reached, register_fs, unregister_fs, metadata_set, metadata_touch,
  metadata_evict, artifact_get, artifact_evict,
}
use swim.Handler.Bounded.{Bounded, artifact_get-Bounded, artifact_evict-Bounded}
use swim.Handler.Sections.{
  Code, finish, section, trigger, look, change, transact, on_result, handle,
}
use swim.Handler.Sections.Calls.{failing, ask}

module _ {S Body Fs Handle : Type 0} (g : GithubPreview S Body Fs Handle) where
  abbrev W : Type 0
  W = State S Fs Handle

  -- What a section does to a state whose limit is positive.
  abbrev pub Steady : W → W → Type 0
  Steady w v = Bounded g v × (v.refresh_active ≡ w.refresh_active)

  unfoldable pub Safe : {A : Type 0} → Code W A → Type 0
  Safe (finish r) = Unit
  Safe (section f c) = (w : W) → Bounded g w → (v : W) × (f w ≡ some v) × Steady w v × Safe (c w)
  Safe (trigger key c) = Safe c

  pub finish-Safe : {A : Type 0} (r : Result Text A) → Safe (finish r)
  unfolding Safe
  finish-Safe r = tt

  pub look-Safe :
      {A B : Type 0} (f : W → B) (k : B → Code W A)
      → ((w : W) → Bounded g w → Safe (k (f w)))
      → Safe (look f k)
  unfolding look Safe
  look-Safe f k on w b = (w, refl, (b, refl), on w b)

  pub change-Safe :
      {A : Type 0} (f : W → W) (c : Code W A)
      → ((w : W) → Bounded g w → Steady w (f w))
      → Safe c
      → Safe (change f c)
  unfolding change Safe
  change-Safe f c steady on w b = (f w, refl, steady w b, on)

  pub transact-Safe :
      {A B : Type 0} (f : W → W × B) (k : B → Code W A)
      → ((w : W) → Bounded g w → Steady w (f w).0)
      → ((w : W) → Bounded g w → Safe (k (f w).1))
      → Safe (transact f k)
  unfolding transact Safe
  transact-Safe f k steady on w b = ((f w).0, refl, steady w b, on w b)

  pub handle-Safe :
      {A B : Type 0} (c : Code W A) (k : A → Code W B) (h : Text → Code W B)
      → Safe c
      → ((a : A) → Safe (k a))
      → ((e : Text) → Safe (h e))
      → Safe (handle c k h)
  unfolding handle Safe
  handle-Safe (finish (ok a)) k h on on_ok on_err = on_ok a
  handle-Safe (finish (err e)) k h on on_ok on_err = on_err e
  handle-Safe (section f c) k h on on_ok on_err = λ w b.
      let (v, runs, steady, rest) = on w b in
      (v, runs, steady, handle-Safe (c w) k h rest on_ok on_err)
  handle-Safe (trigger key c) k h on on_ok on_err = handle-Safe c k h on on_ok on_err

  pub either_Safe :
      {A : Type 0} (b : Bool) (c d : Code W A) → Safe c → Safe d → Safe (if b then c else d)
  either_Safe true c d sc sd = sc
  either_Safe false c d sc sd = sd

  result-Safe :
      {A B : Type 0} (P : A → Type 0) (w : W) (r : S × Result Text A) (k : A → Code W B)
      → Yields P r
      → ((a : A) → P a → Safe (k a))
      → Safe (on_result k (failing g) (reached g w r).1)
  unfolding Yields
  result-Safe P w (s, ok a) k p on = on a p
  result-Safe P w (s, err e) k p on = finish-Safe (err e)

  pub reached-Steady :
      {A : Type 0} (w : W) (r : S × Result Text A) → Bounded g w → Steady w (reached g w r).0
  reached-Steady w (s, r) b = (b, refl)

  pub ask-Safe :
      {A B : Type 0} (P : A → Type 0) (m : Action S Text A) (k : A → Code W B)
      → ((s : S) → Yields P (m s))
      → ((a : A) → P a → Safe (k a))
      → Safe (ask g m k)
  ask-Safe P m k yields on =
      transact-Safe _ _ (λ w b. reached-Steady w (m w.outer) b)
        (λ w b. result-Safe P w (m w.outer) k (yields w.outer) on)

  pub get-Steady : (id : ℕ) (w : W) → Bounded g w → Steady w (artifact_get g id w).0
  unfolding artifact_get
  get-Steady id w b = (artifact_get-Bounded g id w b, refl)

  pub evict-Steady : (id : ℕ) (w : W) → Bounded g w → Steady w (artifact_evict g id w)
  unfolding artifact_evict
  evict-Steady id w b = (artifact_evict-Bounded g id w b, refl)

  module _ (key : Text) where
    pub register-Steady :
        (fs : Layered Fs) (w : W) → Bounded g w → Steady w (register_fs g key fs w)
    unfolding register_fs
    register-Steady fs w b = (b, refl)

    pub unregister-Steady : (w : W) → Bounded g w → Steady w (unregister_fs g key w)
    unfolding unregister_fs
    unregister-Steady w b = (b, refl)

    pub set-Steady :
        (id : ℕ) (sha : Text) (w : W) → Bounded g w → Steady w (metadata_set g key id sha w)
    unfolding metadata_set
    set-Steady id sha w b = (b, refl)

    pub touch-Steady : (w : W) → Bounded g w → Steady w (metadata_touch g key w)
    unfolding metadata_touch
    touch-Steady w b = (b, refl)

    pub forgotten-Steady : (w : W) → Bounded g w → Steady w (metadata_evict g key w)
    unfolding metadata_evict
    forgotten-Steady w b = (b, refl)
