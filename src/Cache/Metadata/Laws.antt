-- ===== src/Cache/Metadata/Laws.antt =====
-- What can be read after each method, at any later time and under any key.
use swim.Prelude.{
  ℕ, ◌+◌, ◌≡◌, refl, ap, ◌∙◌, arith, Bool, false, not, leb, Option, none, some, Text, text_eq, ◌==◌,
  if◌then◌else◌, Option-cases, inl, inr, if-app,
}
use mathlib.Core.Logic.{if_pos, if_neg}
use swim.Prelude.Dict.{
  lookup, NodupKeys, lookup-insert, lookup-erase, insert-NodupKeys, erase-NodupKeys,
}
use swim.Prelude.Int.{ℤ, pos, negsuc}
use swim.Cache.Metadata.{
  MetadataEntry, MetadataCache, is_stale, with_freshness, get, touch, set, evict,
}

-- `touch` gives an entry the current time, and makes none.
abbrev pub refreshed : ℕ → Option MetadataEntry → Option MetadataEntry
refreshed t none = none
refreshed t (some e) = some (record e { resolved_at = t })

-- A moment up to the time to live behind another.
abbrev pub within : ℕ → ℤ → ℕ → Bool
within t (pos m) now = leb now (t + m)
within t (negsuc m) now = false

-- An entry as it is read: with whether it is still within its time to live.
abbrev pub shown : ℕ → ℤ → Option MetadataEntry → Option MetadataEntry × Bool
shown now ttl none = (none, false)
shown now ttl (some e) = (some e, within e.resolved_at ttl now)

fresh_lem :
    (e : MetadataEntry) (now : ℕ) (ttl : ℤ)
    → not (is_stale e now ttl) ≡ within e.resolved_at ttl now
fresh_lem e now (pos m) = ground arith
fresh_lem e now (negsuc m) = ground arith

shown_lem :
    (now : ℕ) (ttl : ℤ) (o : Option MetadataEntry) → with_freshness now ttl o ≡ shown now ttl o
shown_lem now ttl none = refl
shown_lem now ttl (some e) = ap (λ b. (some e, b)) (fresh_lem e now ttl)

module _ (c : MetadataCache) (key other : Text) where
  lookup-touch :
      (t : ℕ)
      → lookup other (touch c t key).entries
        ≡ (if other == key then refreshed t (lookup key c.entries) else lookup other c.entries)
  unfolding touch
  lookup-touch t = elim (Option-cases (lookup key c.entries)) [
    | inl miss ↦ rw miss (elim (text_eq.dec other key) [
      | yes same ↦ rw (if_pos _ same, same) miss
      | no differ ↦ rw (if_neg _ differ)
    ])
    | inr (e, hit) ↦ rw hit (lookup-insert other key _ c.entries)
  ]

  lookup-evict :
      NodupKeys c.entries
      → lookup other (evict c key).0.entries
        ≡ (if other == key then none else lookup other c.entries)
  unfolding evict
  lookup-evict u = elim (Option-cases (lookup key c.entries)) [
    | inl miss ↦ rw miss (elim (text_eq.dec other key) [
      | yes same ↦ rw (if_pos _ same, same) miss
      | no differ ↦ rw (if_neg _ differ)
    ])
    | inr (e, hit) ↦ rw hit (lookup-erase other key c.entries u)
  ]

  ttl-touch : (t : ℕ) → (touch c t key).ttl ≡ c.ttl
  unfolding touch
  ttl-touch t = elim (Option-cases (lookup key c.entries)) [ inl e ↦ rw e | inr (e, h) ↦ rw h ]

  ttl-evict : (evict c key).0.ttl ≡ c.ttl
  unfolding evict
  ttl-evict = elim (Option-cases (lookup key c.entries)) [ inl e ↦ rw e | inr (e, h) ↦ rw h ]

  get-freshness :
      (id : ℕ) (sha : Text) (t now : ℕ)
      → NodupKeys c.entries
      → (get (set c t key id sha) now other ≡ (
          if other == key
          then with_freshness now c.ttl
              (some (record { artifact_id = id; head_sha = sha; resolved_at = t }))
          else get c now other))
        × (get (touch c t key) now other ≡ (
            if other == key
            then with_freshness now c.ttl (refreshed t (lookup key c.entries))
            else get c now other))
        × (get (evict c key).0 now other
            ≡ (if other == key then (none, false) else get c now other))
  unfolding get set
  get-freshness id sha t now u = (
    rw lookup-insert (if-app (with_freshness now c.ttl) (other == key) _ _),
    rw (ttl-touch t, lookup-touch t) (if-app (with_freshness now c.ttl) (other == key) _ _),
    rw (ttl-evict, lookup-evict u) (if-app (with_freshness now c.ttl) (other == key) _ _),
  )

  -- What a read at any time finds, of any key, after each of the three writes to a cache with
  -- distinct keys: `set` makes the key's entry, which is fresh from then up to the time to live
  -- behind it, and never where that is negative; `touch` keeps the artifact and starts the time
  -- anew, and makes no entry where there is none; `evict` leaves nothing. The other keys read as
  -- before.
  pub get-writes :
      (id : ℕ) (sha : Text) (t now : ℕ)
      → NodupKeys c.entries
      → (get (set c t key id sha) now other ≡ (
          if other == key
          then shown now c.ttl (some (record { artifact_id = id; head_sha = sha; resolved_at = t }))
          else get c now other))
        × (get (touch c t key) now other ≡ (
            if other == key
            then shown now c.ttl (refreshed t (lookup key c.entries))
            else get c now other))
        × (get (evict c key).0 now other
            ≡ (if other == key then (none, false) else get c now other))
  get-writes id sha t now u =
      let (s, t', e) = get-freshness id sha t now u in
      (
        s
            ∙ ap (λ x. if other == key then x else get c now other)
                (shown_lem now c.ttl
                  (some (record { artifact_id = id; head_sha = sha; resolved_at = t }))),
        t'
            ∙ ap (λ x. if other == key then x else get c now other)
                (shown_lem now c.ttl (refreshed t (lookup key c.entries))),
        e,
      )

  -- Where no key has two entries, `set`, `touch` and `evict` leave no key with two entries.
  pub NodupKeys-writes :
      (id : ℕ) (sha : Text) (t : ℕ)
      → NodupKeys c.entries
      → NodupKeys (set c t key id sha).entries
        × NodupKeys (touch c t key).entries
        × NodupKeys (evict c key).0.entries
  unfolding set touch evict
  NodupKeys-writes id sha t u = (
    insert-NodupKeys key _ c.entries u,
    elim (Option-cases (lookup key c.entries)) [
      | inl e ↦ rw e u
      | inr (m, h) ↦ rw h (insert-NodupKeys key _ c.entries u)
    ],
    elim (Option-cases (lookup key c.entries)) [
      | inl e ↦ rw e u
      | inr (m, h) ↦ rw h (erase-NodupKeys key c.entries u)
    ],
  )
