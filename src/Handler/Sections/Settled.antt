-- ===== src/Handler/Sections/Settled.antt =====
-- Requests for branches, with nothing that evicts.
use swim.Prelude.{
  ◌≡◌, refl, sym, subst, Bool, true, false, Option, none, some, List, [], ◌∷◌, ◌++◌, Text, text_eq,
  nat_eq, Result, if◌then◌else◌, ◌⊎◌, inl, inr,
}
use swim.Handler.{GithubPreview, State}
use swim.Handler.Aligned.{Has}
use swim.Handler.Registered.{fs_name}
use swim.Handler.Sections.{Code, finish, section, trigger}
use swim.Prelude.{All, All-append, All-split, has}
use swim.Handler.Resolve.{trigger_background_refresh}
use swim.Handler.Sections.Entries.{Entry, request, evict, resolve, prune, code_of}
use swim.Handler.Sections.Pool.{
  Thread, Step, begins, runs, triggers, skips, ends, elsewhere, Reach, idle, next, ended,
}
use swim.Handler.Sections.Tidy.{
  Branch, Known, Backed, Registers, Careful, Tidy, finish-Tidy, handle-Tidy,
}
use swim.Handler.Sections.Tidy.Calls.{full_resolve-Tidy, resolve_and_register-Tidy}

-- Requests for branches, and refreshes of them through the API.
abbrev pub Branches : Entry → Type 0
Branches (request key) = Branch key
Branches (evict key) = ⊥
Branches (resolve key) = Branch key
Branches prune = ⊥

module _ {S Body Fs Handle : Type 0} (g : GithubPreview S Body Fs Handle) where
  abbrev W : Type 0
  W = State S Fs Handle

  code_of-Tidy : (e : Entry) → Branches e → Tidy g (code_of g e)
  unfolding code_of
  code_of-Tidy (request key) branch = resolve_and_register-Tidy g key branch
  code_of-Tidy (evict key) branch = absurd branch
  code_of-Tidy (resolve key) branch =
      handle-Tidy g _ _ _ (full_resolve-Tidy g key branch) (λ fs. finish-Tidy g _)
        (λ e. finish-Tidy g _)
  code_of-Tidy prune branch = absurd branch

  abbrev TidyThread : Thread g → Type 0
  TidyThread (job, c) = Tidy g c

  -- Some goroutine registers the key's file system in its next section.
  abbrev pub Pending : Text → List (Thread g) → Type 0
  Pending key [] = ⊥
  Pending key ((job, c) ∷ ts) = Registers g key c ⊎ Pending key ts

  -- A key with metadata is registered, or about to be.
  pub record Settled (w : W) (ts : List (Thread g)) : Type 0 where
    pub tidy : All TidyThread ts
    pub known : (key : Text) → Known g key w → Backed g key w ⊎ Pending key ts

  Pending-here :
      (key : Text) (before after : List (Thread g)) (job : Option Text) (c : Code W Text)
      → Registers g key c
      → Pending key (before ++ (job, c) ∷ after)
  Pending-here key [] after job c p = inl p
  Pending-here key ((j, d) ∷ before) after job c p = inr (Pending-here key before after job c p)

  -- The goroutine in the middle, or one that is left when it is taken out.
  Pending-middle :
      (key : Text) (before after : List (Thread g)) (job : Option Text) (c : Code W Text)
      → Pending key (before ++ (job, c) ∷ after)
      → Registers g key c ⊎ Pending key (before ++ after)
  Pending-middle key [] after job c p = p
  Pending-middle key ((j, d) ∷ before) after job c (inl p) = inr (inl p)
  Pending-middle key ((j, d) ∷ before) after job c (inr p) =
      elim (Pending-middle key before after job c p) [ inl q ↦ inl q | inr q ↦ inr (inr q) ]

  Pending-added :
      (key : Text) (before after : List (Thread g)) (job : Option Text) (c : Code W Text)
      → Pending key (before ++ after)
      → Pending key (before ++ (job, c) ∷ after)
  Pending-added key [] after job c p = inr p
  Pending-added key ((j, d) ∷ before) after job c (inl p) = inl p
  Pending-added key ((j, d) ∷ before) after job c (inr p) =
      inr (Pending-added key before after job c p)

  -- A goroutine that does not register in its next section goes on, or goes.
  Pending-others :
      (key : Text) (before after : List (Thread g)) (job : Option Text) (c : Code W Text)
      → (Registers g key c → ⊥)
      → Pending key (before ++ (job, c) ∷ after)
      → Pending key (before ++ after)
  Pending-others key before after job c unable p = elim (Pending-middle key before after job c p) [
    | inl q ↦ absurd (unable q)
    | inr q ↦ q
  ]

  finish-unable : {A : Type 0} (key : Text) (r : Result Text A) → Registers g key (finish r) → ⊥
  unfolding Registers
  finish-unable key r p = p

  trigger-unable : {A : Type 0} (key j : Text) (c : Code W A) → Registers g key (trigger j c) → ⊥
  unfolding Registers
  trigger-unable key j c p = p

  section-Registers :
      {A : Type 0} (key : Text) (f : W → Option W) (c : W → Code W A) (w v : W)
      → Registers g key (section f c)
      → f w ≡ some v
      → Backed g key v
  unfolding Registers
  section-Registers key f c w v p run = p w v run

  section-Tidy :
      {A : Type 0} (f : W → Option W) (c : W → Code W A) (w v : W)
      → Tidy g (section f c)
      → f w ≡ some v
      → Careful g w v (c w) × Tidy g (c w)
  unfolding Tidy
  section-Tidy f c w v on run = on w v run

  trigger-Tidy :
      {A : Type 0} (key : Text) (c : Code W A) → Tidy g (trigger key c) → Branch key × Tidy g c
  unfolding Tidy
  trigger-Tidy key c on = on

  runs-Settled :
      (before after : List (Thread g)) (job : Option Text) (f : W → Option W) (c : W → Code W Text)
      (w v : W)
      → Settled w (before ++ (job, section f c) ∷ after)
      → f w ≡ some v
      → Settled v (before ++ (job, c w) ∷ after)
  runs-Settled before after job f c w v settled run =
      let (hb, on, ha) = All-split TidyThread before (job, section f c) after settled.tidy in
      let ((keep, learnt), rest) = section-Tidy f c w v on run in
      record {
        tidy = All-append TidyThread before ((job, c w) ∷ after) hb (rest, ha);
        known = λ key k. elim (learnt key k) [
          | inr q ↦ inr (Pending-here key before after job (c w) q)
          | inl old ↦ elim (settled.known key old) [
            | inl b ↦ inl (keep key b)
            | inr p ↦ elim (Pending-middle key before after job (section f c) p) [
              | inl q ↦ inl (section-Registers key f c w v q run)
              | inr q ↦ inr (Pending-added key before after job (c w) q)
            ]
          ]
        ];
      }

  -- A goroutine that does not register in its next section goes on, where the caches stay.
  passes_Settled :
      (before after : List (Thread g)) (job : Option Text) (c d : Code W Text) (w v : W)
      → Settled w (before ++ (job, c) ∷ after)
      → ((key : Text) → Registers g key c → ⊥)
      → v.metadata_cache ≡ w.metadata_cache
      → v.file_systems ≡ w.file_systems
      → Tidy g d
      → Settled v (before ++ (job, d) ∷ after)
  passes_Settled before after job c d w v settled unable meta systems on =
      let (hb, _, ha) = All-split TidyThread before (job, c) after settled.tidy in
      record {
        tidy = All-append TidyThread before ((job, d) ∷ after) hb (on, ha);
        known = λ key k. elim (settled.known key (subst (λ m. Has key m.entries) meta k)) [
          | inl b ↦ inl (subst (Has (fs_name key)) (sym systems) b)
          | inr p ↦ inr (
              Pending-added key before after job d
                (Pending-others key before after job c (unable key) p))
        ];
      }

  ends-Settled :
      (before after : List (Thread g)) (job : Option Text) (r : Result Text Text) (w v : W)
      → Settled w (before ++ (job, finish r) ∷ after)
      → v.metadata_cache ≡ w.metadata_cache
      → v.file_systems ≡ w.file_systems
      → Settled v (before ++ after)
  ends-Settled before after job r w v settled meta systems =
      let (hb, _, ha) = All-split TidyThread before (job, finish r) after settled.tidy in
      record {
        tidy = All-append TidyThread before after hb ha;
        known = λ key k. elim (settled.known key (subst (λ m. Has key m.entries) meta k)) [
          | inl b ↦ inl (subst (Has (fs_name key)) (sym systems) b)
          | inr p ↦ inr (Pending-others key before after job (finish r) (finish-unable key r) p)
        ];
      }

  begins_Settled :
      (t : Thread g) (w : W) (ts : List (Thread g))
      → TidyThread t
      → Settled w ts
      → Settled w (t ∷ ts)
  begins_Settled (job, c) w ts on settled = record {
    tidy = (on, settled.tidy);
    known = λ key k. elim (settled.known key k) [ inl b ↦ inl b | inr p ↦ inr (inr p) ];
  }

  marked_same :
      (key : Text) (w : W)
      → ((trigger_background_refresh g key w).metadata_cache ≡ w.metadata_cache)
        × ((trigger_background_refresh g key w).file_systems ≡ w.file_systems)
  unfolding trigger_background_refresh
  marked_same key w = if_same (has key w.refresh_active)
    where
      if_same :
          (b : Bool)
          → ((if b then w else record w { refresh_active = key ∷ w.refresh_active }).metadata_cache
              ≡ w.metadata_cache)
            × ((if b then w else record w { refresh_active = key ∷ w.refresh_active }).file_systems
                ≡ w.file_systems)
      if_same true = (refl, refl)
      if_same false = (refl, refl)

  ended_same :
      (job : Option Text) (w : W)
      → ((ended g job w).metadata_cache ≡ w.metadata_cache)
        × ((ended g job w).file_systems ≡ w.file_systems)
  ended_same none w = (refl, refl)
  ended_same (some key) w = (refl, refl)

  at_middle :
      (before after : List (Thread g)) (t : Thread g)
      → All TidyThread (before ++ t ∷ after)
      → TidyThread t
  at_middle before after t on = (All-split TidyThread before t after on).1

  Step-Settled :
      (w v : W) (ts us : List (Thread g)) → Settled w ts → Step g Branches w ts v us → Settled v us
  Step-Settled w v ts us settled (begins e _ _ allowed) =
      begins_Settled (none, code_of g e) w ts (code_of-Tidy e allowed) settled
  Step-Settled w v ts us settled (runs before after job f c _ _ run) =
      runs-Settled before after job f c w v settled run
  Step-Settled w v ts us settled (triggers before after job key c _ unmarked) =
      let (branch, on) =
        trigger-Tidy key c (at_middle before after (job, trigger key c) settled.tidy) in
      begins_Settled (some key, code_of g (resolve key)) v (before ++ (job, c) ∷ after)
        (code_of-Tidy (resolve key) branch)
        (passes_Settled before after job (trigger key c) c w v settled (λ j. trigger-unable j key c)
          (marked_same key w).0 (marked_same key w).1 on)
  Step-Settled w v ts us settled (skips before after job key c _ marked) =
      let (_, on) = trigger-Tidy key c (at_middle before after (job, trigger key c) settled.tidy) in
      passes_Settled before after job (trigger key c) c w w settled (λ j. trigger-unable j key c)
        refl refl on
  Step-Settled w v ts us settled (ends before after job r _) =
      ends-Settled before after job r w v settled (ended_same job w).0 (ended_same job w).1
  Step-Settled w v ts us settled (elsewhere s _ _) = record {
    tidy = settled.tidy;
    known = settled.known;
  }

  Reach-keeps :
      (w : W) (first : List (Thread g)) (v : W) (ts : List (Thread g))
      → Settled w first
      → Reach g Branches w first v ts
      → Settled v ts
  Reach-keeps w first v ts settled idle = settled
  Reach-keeps w first v ts settled (next u _ us _ reach step) =
      Step-Settled u v us ts (Reach-keeps w first u us settled reach) step

  -- From a state in which each key with metadata has a registered file system, and in whatever order
  -- the sections of any number of requests for branches run, of refreshes of branches through the
  -- API and of the refreshes in the background that these start: a key with metadata has a
  -- registered file system, or some goroutine registers it in its next section. So it has one
  -- whenever none runs.
  pub Reach-Settled :
      (w v : W) (ts : List (Thread g)) (key : Text)
      → ((j : Text) → Known g j w → Backed g j w)
      → Reach g Branches w [] v ts
      → Known g key v
      → Backed g key v ⊎ Pending key ts
  Reach-Settled w v ts key backed reach =
      let first : Settled w [] = record { tidy = tt; known = λ j k. inl (backed j k) } in
      (Reach-keeps w [] v ts first reach).known key
