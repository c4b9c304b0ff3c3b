-- ===== src/Handler/Sections/Pool/Sound.antt =====
-- What holds whenever goroutines share the middleware.
use swim.Prelude.{
  ℕ, suc, ◌+◌, ◌≡◌, refl, sym, ap, ◌∙◌, subst, Bool, false, ◌||◌, Option, none, some, List, [], ◌∷◌,
  ◌++◌, Text, text_eq, ◌==◌, has, if◌then◌else◌, All, All-append, All-split, arith,
}
use swim.Handler.{GithubPreview, State}
use swim.Handler.Bounded.{Bounded, trigger-Bounded}
use swim.Handler.Sections.{Code, finish, section, trigger}
use swim.Handler.Sections.Entries.{Entry, resolve}
use swim.Handler.Sections.Safe.{Safe, Steady}
use swim.Handler.Sections.Safe.Entries.{code_of-Safe}
use swim.Handler.Sections.Pool.{
  Thread, Step, begins, runs, triggers, skips, ends, elsewhere, Reach, idle, next, running, ended,
  one_if, Tracked, running-middle, running-gone, has-without, has-marked,
}
use mathlib.Core.Option.{some-injective}

-- A key is marked where no goroutine refreshed it, and with it one begins.
marked_one :
    (j key : Text) (n : ℕ) (b : Bool)
    → n ≡ one_if b
    → (j ≡ key → b ≡ false)
    → (if j == key then suc n else n) ≡ one_if ((key == j) || b)
marked_one j key n b e absent = ground arith

ended_one :
    (here : Bool) (m n : ℕ) (b : Bool)
    → m ≡ (if here then 1 else 0) + n
    → m ≡ one_if b
    → n ≡ one_if (if here then false else b)
ended_one here m n b e d = ground arith

module _ {S Body Fs Handle : Type 0} (g : GithubPreview S Body Fs Handle) where
  abbrev W : Type 0
  W = State S Fs Handle

  abbrev pub SafeThread : Thread g → Type 0
  SafeThread (job, c) = Safe g c

  -- The limit is positive, no goroutine can hang or panic, and no key is refreshed twice at once.
  pub record Sound (w : W) (ts : List (Thread g)) : Type 0 where
    pub bounded : Bounded g w
    pub safe : All SafeThread ts
    pub tracked : Tracked g w ts

  -- A goroutine goes on, and the keys under refresh stay as they are.
  goes_on :
      (before after : List (Thread g)) (job : Option Text) (c d : Code W Text) (w v : W)
      → Sound w (before ++ (job, c) ∷ after)
      → Steady g w v
      → Safe g d
      → Sound v (before ++ (job, d) ∷ after)
  goes_on before after job c d w v sound (bounded, same) safe =
      let (hb, _, ha) = All-split SafeThread before (job, c) after sound.safe in
      record {
        bounded = bounded;
        safe = All-append SafeThread before ((job, d) ∷ after) hb (safe, ha);
        tracked = λ key.
            running-middle g key before after job d c
            ∙ sound.tracked key
            ∙ ap (λ ks. one_if (has key ks)) (sym same);
      }

  pub at_middle :
      (before after : List (Thread g)) (t : Thread g) (w : W)
      → Sound w (before ++ t ∷ after)
      → SafeThread t
  at_middle before after t w sound = (All-split SafeThread before t after sound.safe).1

  without_middle :
      (before after : List (Thread g)) (t : Thread g) (w : W)
      → Sound w (before ++ t ∷ after)
      → All SafeThread (before ++ after)
  without_middle before after t w sound =
      let (hb, _, ha) = All-split SafeThread before t after sound.safe in
      All-append SafeThread before after hb ha

  trigger-Safe : {A : Type 0} (key : Text) (c : Code W A) → Safe g (trigger key c) → Safe g c
  unfolding Safe
  trigger-Safe key c on = on

  section-Safe :
      {A : Type 0} (f : W → Option W) (c : W → Code W A) (w v : W)
      → Safe g (section f c)
      → Bounded g w
      → f w ≡ some v
      → Steady g w v × Safe g (c w)
  unfolding Safe
  section-Safe f c w v on bounded run =
      let (u, ran, steady, rest) = on w bounded in
      (subst (Steady g w) (some-injective _ _ (sym ran ∙ run)) steady, rest)

  ends-Sound :
      (before after : List (Thread g)) (job : Option Text) (c : Code W Text) (w : W)
      → Sound w (before ++ (job, c) ∷ after)
      → Sound (ended g job w) (before ++ after)
  unfolding running
  ends-Sound before after none c w sound = record {
    bounded = sound.bounded;
    safe = without_middle before after (none, c) w sound;
    tracked = λ key.
        ended_one false _ _ _ (running-gone g key before after (none, c)) (sound.tracked key);
  }
  ends-Sound before after (some j) c w sound = record {
    bounded = sound.bounded;
    safe = without_middle before after (some j, c) w sound;
    tracked = λ key.
        ended_one (j == key) _ _ _ (running-gone g key before after (some j, c)) (sound.tracked key)
        ∙ ap one_if (sym (has-without g j key w.refresh_active));
  }

  Step-Sound :
      (Allowed : Entry → Type 0) (w v : W) (ts us : List (Thread g))
      → Sound w ts
      → Step g Allowed w ts v us
      → Sound v us
  unfolding running
  Step-Sound Allowed w v ts us sound (begins e _ _ _) = record {
    bounded = sound.bounded;
    safe = (code_of-Safe g e, sound.safe);
    tracked = sound.tracked;
  }
  Step-Sound Allowed w v ts us sound (runs before after job f c _ _ run) =
      let (steady, rest) =
        section-Safe f c w v (at_middle before after _ w sound) sound.bounded run in
      goes_on before after job (section f c) (c w) w v sound steady rest
  Step-Sound Allowed w v ts us sound (triggers before after job key c _ absent) =
      let on = trigger-Safe key c (at_middle before after _ w sound) in
      let (hb, _, ha) = All-split SafeThread before _ after sound.safe in
      record {
        bounded = trigger-Bounded g key w sound.bounded;
        safe = (code_of-Safe g (resolve key), All-append SafeThread before _ hb (on, ha));
        tracked = λ j.
            marked_one key j _ (has j w.refresh_active)
              (running-middle g j before after job c (trigger key c) ∙ sound.tracked j)
              (λ same. ap (λ k. has k w.refresh_active) (sym same) ∙ absent)
            ∙ ap one_if (sym (has-marked g key j w absent));
      }
  Step-Sound Allowed w v ts us sound (skips before after job key c _ has_it) =
      goes_on before after job (trigger key c) c w w sound (sound.bounded, refl)
        (trigger-Safe key c (at_middle before after _ w sound))
  Step-Sound Allowed w v ts us sound (ends before after job r _) =
      ends-Sound before after job (finish r) w sound
  Step-Sound Allowed w v ts us sound (elsewhere s _ _) = record {
    bounded = sound.bounded;
    safe = sound.safe;
    tracked = sound.tracked;
  }

  first-Sound : (w : W) → Bounded g w → w.refresh_active ≡ [] → Sound w []
  unfolding running
  first-Sound w bounded unmarked = record {
    bounded = bounded;
    safe = tt;
    tracked = λ key. ap (λ ks. one_if (has key ks)) (sym unmarked);
  }

  stays_Sound :
      (Allowed : Entry → Type 0) (w : W) (first : List (Thread g)) (v : W) (ts : List (Thread g))
      → Sound w first
      → Reach g Allowed w first v ts
      → Sound v ts
  stays_Sound Allowed w first v ts sound idle = sound
  stays_Sound Allowed w first v ts sound (next u _ us _ reach step) =
      Step-Sound Allowed u v us ts (stays_Sound Allowed w first u us sound reach) step

  pub Reach-Sound :
      (Allowed : Entry → Type 0) (w v : W) (ts : List (Thread g))
      → Bounded g w
      → w.refresh_active ≡ []
      → Reach g Allowed w [] v ts
      → Sound v ts
  Reach-Sound Allowed w v ts bounded unmarked =
      stays_Sound Allowed w [] v ts (first-Sound w bounded unmarked)

  -- From a state with a positive limit and distinct ids in the artifact cache and no key under
  -- refresh, whatever sections any number of goroutines have run, in whatever order: a key that is
  -- marked as under refresh is refreshed in the background by just one goroutine, and a key that is
  -- not marked by none.
  pub Reach-running :
      (Allowed : Entry → Type 0) (w v : W) (ts : List (Thread g)) (key : Text)
      → Bounded g w
      → w.refresh_active ≡ []
      → Reach g Allowed w [] v ts
      → running g key ts ≡ one_if (has key v.refresh_active)
  Reach-running Allowed w v ts key bounded unmarked reach =
      (Reach-Sound Allowed w v ts bounded unmarked reach).tracked key
