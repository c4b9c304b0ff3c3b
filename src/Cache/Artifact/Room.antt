-- ===== src/Cache/Artifact/Room.antt =====
-- The loop of `ArtifactCache.set`: it ends if the limit is positive, evicts in the order of the
-- last use, and loses no cleanup function.
use mathlib.Core.List.Perm
use mathlib.Core.List.{Perm, perm_append_comm, append_assoc}
use mathlib.Core.Path.{subst₂}
use mathlib.Core.Logic.{if_pos, if_neg}
use mathlib.Core.Option.{some-injective}
use swim.Prelude.{
  ℕ, zero, suc, ◌+◌, ◌≤◌, ◌<◌, ◌≡◌, refl, sym, subst, ◌∙◌, ap, Bool, true, false, inl, inr, none,
  some, List, [], ◌∷◌, ◌++◌, nat_eq, leb, leb→le, if◌then◌else◌, ◌==◌, arith, Bool-cases, length,
  ℕ_discrete,
}
use swim.Prelude.Dict.{lookup, erase, NodupKeys, lookup-erase, erase-NodupKeys, length-erase}
use swim.Prelude.Int.{ℤ, pos, negsuc, reaches}
use swim.Cache.Artifact.{
  ArtifactEntry, ArtifactCache, cleanups_of, evict_picked, evict_oldest_locked, prepend, make_room,
  all_cleanups,
}
use swim.Cache.Artifact.Oldest.{Entries, Since, Evicted, evict_oldest-Evicted}

pub perm_swap : {C : Type 0} (xs ys zs : List C) → Perm (xs ++ (ys ++ zs)) (ys ++ (xs ++ zs))
perm_swap xs ys zs =
    subst₂ Perm (append_assoc xs ys zs) (append_assoc ys xs zs)
      (Perm.append_right zs (perm_append_comm xs ys))

reaches_mono : (n : ℕ) (z : ℤ) → reaches 0 z ≡ true → reaches n z ≡ true
reaches_mono n (pos m) h = ground arith
reaches_mono n (negsuc m) h = refl

evict_picked-max :
    {F C : Type 0} (c : ArtifactCache F C) (first : Bool) (id : ℕ)
    → (evict_picked c first id).0.max_size ≡ c.max_size
evict_picked-max c true id = refl
evict_picked-max c false id = refl

module _ {F C : Type 0} where
  Since-lookup :
      (t : ℕ) (d : Entries F C) (j : ℕ) (f : ArtifactEntry F C)
      → Since t d
      → lookup j d ≡ some f
      → t ≤ f.last_access
  unfolding lookup
  Since-lookup t [] j f s h = cc
  Since-lookup t ((k, e) ∷ d) j f (le, s) h = ground (arith, Since-lookup t d j f s)

  pub all_cleanups-erase :
      (id : ℕ) (e : ArtifactEntry F C) (d : Entries F C)
      → lookup id d ≡ some e
      → Perm (all_cleanups d) (cleanups_of e.cleanup ++ all_cleanups (erase id d))
  unfolding lookup erase all_cleanups
  all_cleanups-erase id e [] h = cc
  all_cleanups-erase id e ((k, f) ∷ d) h = elim (ℕ_discrete id k) [
    | yes same ↦
        let eq : f ≡ e = some-injective f e (rw (if_pos _ same) at h) in
        rw (if_pos _ same) (
          subst
            (λ (x : ArtifactEntry F C).
              Perm (cleanups_of f.cleanup ++ all_cleanups d)
                (cleanups_of x.cleanup ++ all_cleanups d))
            eq (Perm.refl (cleanups_of f.cleanup ++ all_cleanups d)))
    | no differ ↦ rw (if_neg _ differ) (
        Perm.trans
          (Perm.append_left (cleanups_of f.cleanup)
            (all_cleanups-erase id e d (rw (if_neg _ differ) at h)))
          (perm_swap (cleanups_of f.cleanup) (cleanups_of e.cleanup) (all_cleanups (erase id d))))
  ]

  pub record Made (m : ℕ) (c c' : ArtifactCache F C) (fs : List C) : Type 0 where
    pub max : c'.max_size ≡ c.max_size
    pub keys : NodupKeys c'.entries
    pub size : length c'.entries ≡ (if leb (length c.entries) m then length c.entries else m)
    pub sub :
        (j : ℕ) (e : ArtifactEntry F C) → lookup j c'.entries ≡ some e → lookup j c.entries ≡ some e
    pub order :
        (i j : ℕ) (e f : ArtifactEntry F C)
        → lookup i c.entries ≡ some e
        → lookup i c'.entries ≡ none
        → lookup j c'.entries ≡ some f
        → e.last_access ≤ f.last_access
    pub run : Perm (all_cleanups c.entries) (fs ++ all_cleanups c'.entries)
    pub spared : length c.entries ≤ m → (fs ≡ []) × (c' ≡ c)

  Made-stop :
      (m : ℕ) (c : ArtifactCache F C)
      → NodupKeys c.entries
      → leb (suc m) (length c.entries) ≡ false
      → Made m c c []
  Made-stop m c u small = record {
    max = refl;
    keys = u;
    size = ground arith;
    sub = λ j e h. h;
    order = λ i j e f h gone k. cc;
    run = Perm.refl (all_cleanups c.entries);
    spared = λ small. (refl, refl);
  }

  lookup-Evicted :
      (c b : ArtifactCache F C) (fs : List C) (v : Evicted c b fs) (j : ℕ)
      → NodupKeys c.entries
      → lookup j b.entries ≡ (if j == v.id then none else lookup j c.entries)
  lookup-Evicted c b fs v j u =
      ap (λ (x : ArtifactCache F C). lookup j x.entries) v.rest ∙ lookup-erase j v.id c.entries u

  length-Evicted :
      (c b : ArtifactCache F C) (fs : List C) (v : Evicted c b fs)
      → length b.entries + 1 ≡ length c.entries
  length-Evicted c b fs v =
      ap (λ (x : ArtifactCache F C). length x.entries + 1) v.rest
      ∙ length-erase v.id v.entry c.entries v.found

  Made-evict :
      (m : ℕ) (c b c' : ArtifactCache F C) (fs gs : List C)
      → NodupKeys c.entries
      → suc m ≤ length c.entries
      → Evicted c b fs
      → Made m b c' gs
      → Made m c c' (fs ++ gs)
  Made-evict m c b c' fs gs u large v made = record {
    max = made.max ∙ ap (λ (x : ArtifactCache F C). x.max_size) v.rest;
    keys = made.keys;
    size = ground (arith, made.size, length-Evicted c b fs v);
    sub = λ j e h. ground (arith, made.sub j e h, lookup-Evicted c b fs v j u);
    order = λ i j e f h gone k.
        let older = made.sub j f k in
        let kept : lookup j c.entries ≡ some f = ground (arith, lookup-Evicted c b fs v j u) in
        elim (ℕ_discrete i v.id) [
          | yes same ↦
              let first : v.entry ≡ e =
                some-injective _ _ (sym v.found ∙ ap (λ n. lookup n c.entries) (sym same) ∙ h) in
              let le = Since-lookup v.entry.last_access c.entries j f v.oldest kept in
              subst (λ (x : ArtifactEntry F C). x.last_access ≤ f.last_access) first le
          | no differ ↦ made.order i j e f (ground (arith, lookup-Evicted c b fs v i u)) gone k
        ];
    run = Perm.trans (all_cleanups-erase v.id v.entry c.entries v.found) (
        subst
          (λ xs.
            Perm (xs ++ all_cleanups (erase v.id c.entries))
              ((fs ++ gs) ++ all_cleanups c'.entries))
          v.run
          (subst
            (λ (x : ArtifactCache F C).
              Perm (fs ++ all_cleanups x.entries) ((fs ++ gs) ++ all_cleanups c'.entries))
            v.rest
            (subst (λ ys. Perm (fs ++ all_cleanups b.entries) ys)
              (sym (append_assoc fs gs (all_cleanups c'.entries)))
              (Perm.append_left fs made.run))));
    spared = λ small. absurd (omega arith);
  }

  abbrev Run : ℕ → ℕ → ArtifactCache F C → Type 0
  Run fuel m c =
      (c' : ArtifactCache F C) × (fs : List C) × (make_room fuel c ≡ some (c', fs)) × Made m c c' fs

  make_room_stop :
      (fuel : ℕ) (c : ArtifactCache F C)
      → reaches (length c.entries) c.max_size ≡ false
      → make_room (suc fuel) c ≡ some (c, [])
  unfolding make_room
  make_room_stop fuel c e = rw (e, make_room)

  make_room_evict :
      (fuel : ℕ) (c : ArtifactCache F C)
      → reaches (length c.entries) c.max_size ≡ true
      → make_room (suc fuel) c
        ≡ prepend (evict_oldest_locked c).1 (make_room fuel (evict_oldest_locked c).0)
  unfolding make_room
  make_room_evict fuel c e = rw (e, make_room)

  -- With a limit of `m + 1` and more rounds than entries the loop ends. It leaves at most `m`
  -- entries, and all of them where there were no more; no entry that it leaves was used before
  -- one that it takes; and the functions that it runs are those of the entries that it takes, each
  -- once.
  pub make_room-Made :
      (fuel m : ℕ) (c : ArtifactCache F C)
      → length c.entries < fuel
      → c.max_size ≡ pos (suc m)
      → NodupKeys c.entries
      → Run fuel m c
  make_room-Made zero m c short e u = absurd (omega arith)
  make_room-Made (suc fuel) m c short e u =
      let test : reaches (length c.entries) c.max_size ≡ leb (suc m) (length c.entries) =
        ap (reaches (length c.entries)) e in
      elim (Bool-cases (leb (suc m) (length c.entries))) [
        | inr small ↦ (c, [], make_room_stop fuel c (test ∙ small), Made-stop m c u small)
        | inl large ↦
            let b = (evict_oldest_locked c).0 in
            let fs = (evict_oldest_locked c).1 in
            let v = evict_oldest-Evicted c u (λ nil. ground (arith, ap length nil)) in
            let w =
              subst (λ (x : ArtifactCache F C). NodupKeys x.entries) (sym v.rest)
                (erase-NodupKeys v.id c.entries u) in
            let (c', gs, run, made) =
              make_room-Made fuel m b (omega (arith, length-Evicted c b fs v))
                (ap (λ (x : ArtifactCache F C). x.max_size) v.rest ∙ e) w in
            (
              c',
              fs ++ gs,
              make_room_evict fuel c (test ∙ large) ∙ ap (prepend fs) run,
              Made-evict m c b c' fs gs u (leb→le _ _ large) v made,
            )
      ]

  max-evict_oldest : (c : ArtifactCache F C) → (evict_oldest_locked c).0.max_size ≡ c.max_size
  unfolding evict_oldest_locked
  max-evict_oldest c = evict_picked-max c _ _

  -- With a limit of zero or less the loop does not end, however many rounds it is given.
  pub make_room-diverges :
      (fuel : ℕ) (c : ArtifactCache F C) → reaches 0 c.max_size ≡ true → make_room fuel c ≡ none
  unfolding make_room
  make_room-diverges zero c bad = refl
  make_room-diverges (suc fuel) c bad =
      let test : reaches (length c.entries) c.max_size ≡ true =
        reaches_mono (length c.entries) c.max_size bad in
      let bad' = ap (reaches 0) (max-evict_oldest c) ∙ bad in
      make_room_evict fuel c test
      ∙ ap (prepend (evict_oldest_locked c).1)
          (make_room-diverges fuel (evict_oldest_locked c).0 bad')
