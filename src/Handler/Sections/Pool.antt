-- ===== src/Handler/Sections/Pool.antt =====
-- Any number of goroutines that share the middleware: requests, calls of the API, the pruner and the
-- refreshes in the background, section by section in any order.
pub mod Sound
use swim.Prelude.{
  ℕ, zero, suc, ◌+◌, ◌≤◌, ◌≡◌, refl, sym, ap, ◌∙◌, subst, Bool, true, false, ◌||◌, Option, none,
  some, List, [], ◌∷◌, ◌++◌, Text, text_eq, ◌==◌, has, Result, ok, err, if◌then◌else◌, All,
  All-append, All-split, arith, Bool-cases, inl, inr, Eq,
}
use swim.Handler.{GithubPreview, State}
use swim.Handler.Resolve.{trigger_background_refresh, without}
use swim.Handler.Bounded.{Bounded}
use swim.Handler.Sections.{Code, finish, section, trigger}
use swim.Handler.Sections.Entries.{Entry, resolve, code_of}
use swim.Handler.Sections.Safe.{Safe, Steady}
use swim.Handler.Sections.Safe.Entries.{code_of-Safe}
use mathlib.Core.Option.{some-injective}

-- Whatever begins
abbrev pub Any : Entry → Type 0
Any e = Unit

-- Nothing begins
abbrev pub Nothing : Entry → Type 0
Nothing e = ⊥

abbrev pub one_if : Bool → ℕ
one_if b = if b then 1 else 0

module _ {S Body Fs Handle : Type 0} (g : GithubPreview S Body Fs Handle) where
  abbrev pub W : Type 0
  W = State S Fs Handle

  -- The key that a refresh in the background is for, and what is left to run.
  abbrev pub Thread : Type 0
  Thread = Option Text × Code W Text

  -- The key that a goroutine refreshed is taken off by the function it deferred.
  abbrev pub ended : Option Text → W → W
  ended none w = w
  ended (some key) w = record w { refresh_active = without g key w.refresh_active }

  -- `Step Allowed w ts v us`: one goroutine enters its next section, or begins what is allowed, or
  -- ends; or something outside, such as the clock, changes.
  pub data Step (Allowed : Entry → Type 0) : W → List Thread → W → List Thread → Type 0 where
    begins :
        (e : Entry) (w : W) (ts : List Thread)
        → Allowed e
        → Step Allowed w ts w ((none, code_of g e) ∷ ts)
    runs :
        (before after : List Thread) (job : Option Text) (f : W → Option W) (c : W → Code W Text)
        (w v : W)
        → f w ≡ some v
        → Step Allowed w (before ++ (job, section f c) ∷ after) v (before ++ (job, c w) ∷ after)
    triggers :
        (before after : List Thread) (job : Option Text) (key : Text) (c : Code W Text) (w : W)
        → has key w.refresh_active ≡ false
        → Step Allowed w
            (before ++ (job, trigger key c) ∷ after)
            (trigger_background_refresh g key w)
            ((some key, code_of g (resolve key)) ∷ before ++ (job, c) ∷ after)
    skips :
        (before after : List Thread) (job : Option Text) (key : Text) (c : Code W Text) (w : W)
        → has key w.refresh_active ≡ true
        → Step Allowed w (before ++ (job, trigger key c) ∷ after) w (before ++ (job, c) ∷ after)
    ends :
        (before after : List Thread) (job : Option Text) (r : Result Text Text) (w : W)
        → Step Allowed w (before ++ (job, finish r) ∷ after) (ended job w) (before ++ after)
    elsewhere : (s : S) (w : W) (ts : List Thread) → Step Allowed w ts (record w { outer = s }) ts

  -- What can come of a state and the goroutines that are there first.
  pub data Reach (Allowed : Entry → Type 0) (first : W) (ts : List Thread)
      : W → List Thread → Type 0 where
    idle : Reach Allowed first ts first ts
    next :
        (w v : W) (us vs : List Thread)
        → Reach Allowed first ts w us
        → Step Allowed w us v vs
        → Reach Allowed first ts v vs

  -- How many goroutines refresh the key in the background.
  unfoldable pub running : Text → List Thread → ℕ
  running key [] = 0
  running key ((none, c) ∷ ts) = running key ts
  running key ((some j, c) ∷ ts) = let rest = running key ts in if j == key then suc rest else rest

  -- A key that is marked is under refresh by one goroutine, and any other key by none.
  abbrev pub Tracked : W → List Thread → Type 0
  Tracked w ts = (key : Text) → running key ts ≡ one_if (has key w.refresh_active)

  pub running-append :
      (key : Text) (ts us : List Thread) → running key (ts ++ us) ≡ running key ts + running key us
  unfolding running
  running-append key [] us = omega arith
  running-append key ((none, c) ∷ ts) us = running-append key ts us
  running-append key ((some j, c) ∷ ts) us = added (j == key) _ _ _ (running-append key ts us)
    where
      added :
          (b : Bool) (m n k : ℕ)
          → m ≡ n + k
          → (if b then suc m else m) ≡ (if b then suc n else n) + k
      added true m n k e = omega arith
      added false m n k e = omega arith

  -- The goroutine in the middle may go on.
  pub running-middle :
      (key : Text) (before after : List Thread) (job : Option Text) (c d : Code W Text)
      → running key (before ++ (job, c) ∷ after) ≡ running key (before ++ (job, d) ∷ after)
  unfolding running
  running-middle key before after none c d =
      running-append key before _ ∙ sym (running-append key before _)
  running-middle key before after (some j) c d =
      running-append key before _ ∙ sym (running-append key before _)

  pub running-gone :
      (key : Text) (before after : List Thread) (t : Thread)
      → running key (before ++ t ∷ after) ≡ running key (t ∷ []) + running key (before ++ after)
  unfolding running
  running-gone key before after (none, c) =
      let here = running-append key before ((none, c) ∷ after) in
      let there = running-append key before after in here ∙ sym there ∙ zero_lem _
    where
      zero_lem : (n : ℕ) → n ≡ 0 + n
      zero_lem n = omega arith
  running-gone key before after (some j, c) =
      let here = running-append key before ((some j, c) ∷ after) in
      let there = running-append key before after in by_job (j == key) _ _ _ _ here there
    where
      by_job :
          (b : Bool) (x y n k : ℕ)
          → x ≡ n + (if b then suc k else k)
          → y ≡ n + k
          → x ≡ (if b then 1 else 0) + y
      by_job true x y n k e d = omega arith
      by_job false x y n k e d = omega arith

  pub has-without :
      (j key : Text) (ks : List Text)
      → has key (without g j ks) ≡ (if j == key then false else has key ks)
  unfolding without
  has-without j key [] = ground arith
  has-without j key (k ∷ ks) = ground (arith, has-without j key ks)

  pub has-marked :
      (j key : Text) (w : W)
      → has j w.refresh_active ≡ false
      → has key (trigger_background_refresh g j w).refresh_active
        ≡ (key == j) || has key w.refresh_active
  unfolding trigger_background_refresh
  has-marked j key w absent = rw absent
