-- ===== src/Cache/Artifact/Laws.antt =====
-- What `set` leaves in the artifact cache, and what becomes of the cleanup functions.
use mathlib.Core.List.Perm
use mathlib.Core.List.{Perm}
use mathlib.Core.Option
use mathlib.Core.Path.{ap₂}
use mathlib.Core.Option.{some-injective}
use mathlib.Core.Logic.{if_pos, if_neg}
use swim.Prelude.{
  ℕ, suc, ◌+◌, ◌≤◌, ◌≡◌, ◌≢◌, refl, sym, subst, ◌∙◌, ap, Bool, false, inl, inr, Option, none, some,
  List, [], ◌∷◌, ◌++◌, nat_eq, ltb, arith, Option-cases, length, ℕ_discrete, has,
}
use swim.Prelude.Dict.{
  lookup, insert, NodupKeys, lookup-insert, lookup-insert_self, lookup-insert_ne, insert-NodupKeys,
  length-insert_new, length-insert_old,
}
use swim.Prelude.Int.{pos}
use swim.Cache.Artifact.{
  ArtifactEntry, ArtifactCache, cleanups_of, store_entry, set, all_cleanups, stale_from,
  stale_entries,
}
use swim.Cache.Artifact.Oldest.{Entries}
use swim.Cache.Artifact.Room.{Made, make_room-Made, perm_swap}

module _ {F C : Type 0} where
  all_cleanups-insert :
      (id : ℕ) (e : ArtifactEntry F C) (d : Entries F C)
      → lookup id d ≡ none
      → Perm (cleanups_of e.cleanup ++ all_cleanups d) (all_cleanups (insert id e d))
  unfolding lookup insert all_cleanups
  all_cleanups-insert id e [] h = Perm.refl (cleanups_of e.cleanup ++ [])
  all_cleanups-insert id e ((k, f) ∷ d) h =
      let differ : id ≢ k = ground arith in
      rw (if_neg _ differ) (
        Perm.trans (perm_swap (cleanups_of e.cleanup) (cleanups_of f.cleanup) (all_cleanups d)) (
          Perm.append_left (cleanups_of f.cleanup)
            (all_cleanups-insert id e d (rw (if_neg _ differ) at h))))

  all_cleanups-overwrite :
      (id : ℕ) (old e : ArtifactEntry F C) (d : Entries F C)
      → lookup id d ≡ some old
      → Perm
          (cleanups_of e.cleanup ++ all_cleanups d)
          (cleanups_of old.cleanup ++ all_cleanups (insert id e d))
  unfolding lookup insert all_cleanups
  all_cleanups-overwrite id old e [] h = cc
  all_cleanups-overwrite id old e ((k, f) ∷ d) h = elim (ℕ_discrete id k) [
    | yes same ↦
        let eq : f ≡ old = some-injective f old (rw (if_pos _ same) at h) in
        rw (if_pos _ same) (
          subst
            (λ (x : ArtifactEntry F C).
              Perm (cleanups_of e.cleanup ++ (cleanups_of f.cleanup ++ all_cleanups d))
                (cleanups_of x.cleanup ++ (cleanups_of e.cleanup ++ all_cleanups d)))
            eq (perm_swap (cleanups_of e.cleanup) (cleanups_of f.cleanup) (all_cleanups d)))
    | no differ ↦
        let rest = all_cleanups-overwrite id old e d (rw (if_neg _ differ) at h) in
        rw (if_neg _ differ) (
          Perm.trans (perm_swap (cleanups_of e.cleanup) (cleanups_of f.cleanup) (all_cleanups d)) (
            Perm.trans (Perm.append_left (cleanups_of f.cleanup) rest) (
              perm_swap (cleanups_of f.cleanup) (cleanups_of old.cleanup)
                (all_cleanups (insert id e d)))))
  ]

  length-insert-le :
      (id : ℕ) (e : ArtifactEntry F C) (d : Entries F C) → length (insert id e d) ≤ length d + 1
  length-insert-le id e d = elim (Option-cases (lookup id d)) [
    | inl absent ↦ omega (arith, length-insert_new id e d absent)
    | inr (f, found) ↦ omega (arith, length-insert_old id e f d found)
  ]

-- The outcome of `set` with a limit of `m + 1` entries.
pub record Stored {F C : Type 0} (m id : ℕ) (e : ArtifactEntry F C) (c c' : ArtifactCache F C)
    (cleanups : List C) : Type 0 where
  pub max : c'.max_size ≡ c.max_size
  pub keys : NodupKeys c'.entries
  pub size : length c'.entries ≤ suc m
  pub new : lookup id c'.entries ≡ some e
  pub old :
      (j : ℕ) (f : ArtifactEntry F C)
      → j ≢ id
      → lookup j c'.entries ≡ some f
      → lookup j c.entries ≡ some f
  pub order :
      (i j : ℕ) (g f : ArtifactEntry F C)
      → j ≢ id
      → lookup i c.entries ≡ some g
      → lookup i c'.entries ≡ none
      → lookup j c'.entries ≡ some f
      → g.last_access ≤ f.last_access
  pub kept :
      length c.entries ≤ m
      → (cleanups ≡ []) × ((j : ℕ) → j ≢ id → lookup j c'.entries ≡ lookup j c.entries)
  pub run :
      lookup id c.entries ≡ none
      → Perm (cleanups_of e.cleanup ++ all_cleanups c.entries) (cleanups ++ all_cleanups c'.entries)

module _ {F C : Type 0} (c : ArtifactCache F C) (now id : ℕ) (fs : F) (size_bytes : ℕ)
    (cleanup : Option C) where
  abbrev pub new_entry : ArtifactEntry F C
  new_entry = record { fs = fs; size_bytes = size_bytes; last_access = now; cleanup = cleanup }

  Made-Stored :
      (m : ℕ) (b : ArtifactCache F C) (gs : List C)
      → Made m c b gs
      → Stored m id new_entry c (store_entry id new_entry b) gs
  Made-Stored m b gs made = record {
    max = made.max;
    keys = insert-NodupKeys id new_entry b.entries made.keys;
    size = ground (arith, made.size, length-insert-le id new_entry b.entries);
    new = lookup-insert_self id new_entry b.entries;
    old = λ j f ne h. made.sub j f (sym (lookup-insert_ne j id new_entry b.entries ne) ∙ h);
    order = λ i j g f ne h gone k.
        made.order i j g f h (ground (arith, lookup-insert i id new_entry b.entries))
          (sym (lookup-insert_ne j id new_entry b.entries ne) ∙ k);
    kept = λ small.
        let (none_run, same) = made.spared small in
        (
          none_run,
          λ j ne.
              lookup-insert_ne j id new_entry b.entries ne
              ∙ ap (λ (x : ArtifactCache F C). lookup j x.entries) same,
        );
    run = λ absent.
        let gone : lookup id b.entries ≡ none = elim (Option-cases (lookup id b.entries)) [
          | inl e ↦ e
          | inr (f, found) ↦ absurd (ground (arith, made.sub id f))
        ] in
        Perm.trans (Perm.append_left (cleanups_of cleanup) made.run) (
          Perm.trans (perm_swap (cleanups_of cleanup) gs (all_cleanups b.entries))
            (Perm.append_left gs (all_cleanups-insert id new_entry b.entries gone)));
  }

  -- With a limit of `m + 1` entries and distinct ids, `set` returns: the id has the new entry, at
  -- most `m + 1` entries are left, the others are as before, none of them was used before one that
  -- went, all stay where there was room, and for a new id each cleanup function is either still
  -- in the cache or run, once.
  pub set-Stored :
      (m : ℕ)
      → c.max_size ≡ pos (suc m)
      → NodupKeys c.entries
      → (c' : ArtifactCache F C) × (cleanups : List C) × (set c now id fs size_bytes cleanup
          ≡ some (c', cleanups))
        × Stored m id new_entry c c' cleanups
  unfolding set
  set-Stored m e u =
      let (b, gs, run, made) = make_room-Made (suc (length c.entries)) m c (omega arith) e u in
      (store_entry id new_entry b, gs, ap (Option.map _) run, Made-Stored m b gs made)

  -- With a limit of `m + 1` entries, distinct ids and at most `m` entries, `set` over an entry of
  -- the same id runs nothing, and the old entry's cleanup function is not kept either.
  pub set_overwrites :
      (m : ℕ) (old : ArtifactEntry F C)
      → c.max_size ≡ pos (suc m)
      → NodupKeys c.entries
      → length c.entries ≤ m
      → lookup id c.entries ≡ some old
      → (c' : ArtifactCache F C) × (set c now id fs size_bytes cleanup ≡ some (c', []))
        × Perm
            (cleanups_of cleanup ++ all_cleanups c.entries)
            (cleanups_of old.cleanup ++ all_cleanups c'.entries)
  unfolding set
  set_overwrites m old e u small found =
      let (b, gs, run, made) = make_room-Made (suc (length c.entries)) m c (omega arith) e u in
      let (none_run, same) = made.spared small in
      (
        store_entry id new_entry c,
        ap (Option.map _) (run ∙ ap₂ (λ x y. some (x, y)) same none_run),
        all_cleanups-overwrite id old new_entry c.entries found,
      )

module _ {F C : Type 0} where
  has-stale_absent :
      (now age j : ℕ) (d : Entries F C) → lookup j d ≡ none → has j (stale_from now age d) ≡ false
  unfolding lookup stale_from
  has-stale_absent now age j [] h = refl
  has-stale_absent now age j ((k, e) ∷ d) h = ground (arith, has-stale_absent now age j d)

  abbrev pub older_by : ℕ → ℕ → Option (ArtifactEntry F C) → Bool
  older_by now age none = false
  older_by now age (some e) = ltb (e.last_access + age) now

  has-stale :
      (now age j : ℕ) (d : Entries F C)
      → NodupKeys d
      → has j (stale_from now age d) ≡ older_by now age (lookup j d)
  unfolding lookup stale_from
  has-stale now age j [] u = refl
  has-stale now age j ((k, e) ∷ d) (fresh, u) =
      ground (arith, has-stale now age j d u, has-stale_absent now age k d fresh)

  -- With distinct ids, those reported as stale are the ids of the entries that were not used for
  -- longer than the given age, no more and no fewer.
  pub has-stale_entries :
      (c : ArtifactCache F C) (now age j : ℕ)
      → NodupKeys c.entries
      → has j (stale_entries c now age) ≡ older_by now age (lookup j c.entries)
  has-stale_entries c now age j u = has-stale now age j c.entries u
