-- ===== src/Cache/Artifact/Oldest.antt =====
-- `evictOldestLocked` picks an entry than which none was used longer ago.

use swim.Prelude.{
  ℕ, ◌≤◌, ◌<◌, ◌≡◌, ◌≢◌, refl, ◌∙◌, ap, sym, subst, Bool, true, false, ◌⊎◌, inl, inr, some, List,
  [], ◌∷◌, nat_eq, ltb, ltb→lt, ltb→le, arith, All, All-map, Bool-cases,
}
use swim.Prelude.Dict.{Dict, lookup, erase, NodupKeys, ne_of_lookup}
use swim.Cache.Artifact.{
  ArtifactEntry, ArtifactCache, cleanups_of, entry_cleanups, scan_oldest, evict_picked,
  evict_oldest_locked,
}

abbrev pub Entries : Type 0 → Type 0 → Type 0
Entries F C = Dict ℕ (ArtifactEntry F C)

module _ {F C : Type 0} where
  -- All of the entries were used at `t` or later.
  abbrev pub Since : ℕ → Entries F C → Type 0
  Since t = All (λ (entry : ℕ × ArtifactEntry F C). t ≤ entry.1.last_access)

  Since-le : (s t : ℕ) (d : Entries F C) → s ≤ t → Since t d → Since s d
  Since-le s t d le = All-map _ _ (λ entry h. omega arith) d

  lookup-cons_self :
      (k : ℕ) (e : ArtifactEntry F C) (d : Entries F C) → lookup k ((k, e) ∷ d) ≡ some e
  unfolding lookup
  lookup-cons_self k e d = ground arith

  lookup-cons_ne :
      (j k : ℕ) (e : ArtifactEntry F C) (d : Entries F C)
      → j ≢ k
      → lookup j ((k, e) ∷ d) ≡ lookup j d
  unfolding lookup
  lookup-cons_ne j k e d ne = ground arith

  -- The scan returns `id` where no entry is older than `t`, and else the oldest of them.
  abbrev Picks : Entries F C → ℕ → ℕ → Bool × ℕ → Type 0
  Picks d id t r =
      ((r ≡ (false, id)) × Since t d)
      ⊎ ((j : ℕ) × (e : ArtifactEntry F C) × (r ≡ (false, j))
          × (lookup j d ≡ some e)
          × (e.last_access < t)
          × Since e.last_access d)

  scan-Picks : (d : Entries F C) (id t : ℕ) → NodupKeys d → Picks d id t (scan_oldest d false id t)
  unfolding scan_oldest
  scan-Picks [] id t u = inl (refl, tt)
  scan-Picks ((k, e) ∷ d) id t (fresh, u) = elim (Bool-cases (ltb e.last_access t)) [
    | inl older ↦ rw older (elim (scan-Picks d k e.last_access u) [
      | inl (r, since) ↦
          inr (k, e, r, lookup-cons_self k e d, ltb→lt _ _ older, (omega arith, since))
      | inr (j, f, r, found, lt, since) ↦ inr (
        j,
        f,
        r,
        lookup-cons_ne j k e d (ne_of_lookup j k f d found fresh) ∙ found,
        omega (arith, lt, ltb→lt _ _ older),
        (omega (arith, lt), since),
      )
    ])
    | inr newer ↦ rw newer (elim (scan-Picks d id t u) [
      | inl (r, since) ↦ inl (r, (ltb→le _ _ newer, since))
      | inr (j, f, r, found, lt, since) ↦ inr (
        j,
        f,
        r,
        lookup-cons_ne j k e d (ne_of_lookup j k f d found fresh) ∙ found,
        lt,
        (omega (arith, lt, ltb→le _ _ newer), since),
      )
    ])
  ]

  -- The entry that goes was used no later than any that stays.
  pub record Evicted (c c' : ArtifactCache F C) (fs : List C) : Type 0 where
    pub id : ℕ
    pub entry : ArtifactEntry F C
    pub found : lookup id c.entries ≡ some entry
    pub oldest : Since entry.last_access c.entries
    pub rest : c' ≡ record c { entries = erase id c.entries }
    pub run : fs ≡ cleanups_of entry.cleanup

  scan_first :
      (k : ℕ) (e : ArtifactEntry F C) (d : Entries F C)
      → scan_oldest ((k, e) ∷ d) true 0 0 ≡ scan_oldest d false k e.last_access
  unfolding scan_oldest
  scan_first k e d = refl

  scan-oldest :
      (k : ℕ) (e : ArtifactEntry F C) (d : Entries F C)
      → NodupKeys ((k, e) ∷ d)
      → (j : ℕ) × (f : ArtifactEntry F C) × (scan_oldest ((k, e) ∷ d) true 0 0 ≡ (false, j))
        × (lookup j ((k, e) ∷ d) ≡ some f)
        × Since f.last_access ((k, e) ∷ d)
  scan-oldest k e d (fresh, u) = elim (scan-Picks d k e.last_access u) [
    | inl (r, since) ↦ (k, e, scan_first k e d ∙ r, lookup-cons_self k e d, (omega arith, since))
    | inr (j, f, r, found, lt, since) ↦ (
      j,
      f,
      scan_first k e d ∙ r,
      lookup-cons_ne j k e d (ne_of_lookup j k f d found fresh) ∙ found,
      (omega (arith, lt), since),
    )
  ]

  evict-Evicted :
      (c : ArtifactCache F C) (d : Entries F C)
      → c.entries ≡ d
      → NodupKeys d
      → d ≢ []
      → Evicted c (evict_oldest_locked c).0 (evict_oldest_locked c).1
  unfolding evict_oldest_locked
  evict-Evicted c [] e u ne = absurd (ne refl)
  evict-Evicted c ((k, x) ∷ d) e u ne =
      let (j, f, scan, found, since) = scan-oldest k x d u in
      let scan' = ap (λ z. scan_oldest z true 0 0) e ∙ scan in
      record {
        id = j;
        entry = f;
        found = ap (lookup j) e ∙ found;
        oldest = subst (Since f.last_access) (sym e) since;
        rest = ap (λ (z : Bool × ℕ). (evict_picked c z.0 z.1).0) scan';
        run =
            ap (λ (z : Bool × ℕ). (evict_picked c z.0 z.1).1) scan'
            ∙ ap entry_cleanups (ap (lookup j) e ∙ found);
      }

  -- From a cache with distinct ids that holds something `evictOldestLocked` takes exactly one entry, one that was
  -- used no later than any other, and returns that entry's cleanup function.
  pub evict_oldest-Evicted :
      (c : ArtifactCache F C)
      → NodupKeys c.entries
      → c.entries ≢ []
      → Evicted c (evict_oldest_locked c).0 (evict_oldest_locked c).1
  evict_oldest-Evicted c u ne = evict-Evicted c c.entries refl u ne
