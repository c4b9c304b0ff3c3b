-- ===== src/Lru/Serve.antt =====
-- A cached filesystem against the filesystem below it: the cache is never seen in the answers.
use swim.Prelude.{
  ℕ, subst, ◌≤◌, ◌≡◌, refl, ◌∙◌, ap, sym, Option, none, some, List, [], ◌∷◌, ◌-◌, Text, text_eq,
  ◌==◌, leb, Bool-cases, Option-cases, inl, inr, Result, ok, err, All, map,
}
use mathlib.Core.Logic.{if_pos, if_neg}
use mathlib.Core.Option.{some-injective}
use swim.Prelude.Int.{exceeds, ℤ, pos_part}
use swim.Lru.{Item, item, CacheEntry, LruCacheFs, new_lru_cache_fs}
use swim.Lru.Repr.{new-Repr}
use swim.Lru.Room.{fitting}
use swim.Lru.Open.{BaseFile, File, cached, Loaded, directory, file, load, reopen, open_file}
use swim.Lru.Recent.{find, remove, add, recent_keep, recent_open}
use swim.Lru.Refine.{Represents}
use swim.Lru.Correct.{open-recent_open, load-name}

new_max : (max : ℤ) → (new_lru_cache_fs max).max_bytes ≡ max
unfolding new_lru_cache_fs
new_max max = refl

infixl 5 ◌>>=◌
abbrev ◌>>=◌ : {A B : Type 0} → Option A → (A → Option B) → Option B
none >>= f = none
some a >>= f = f a

module _ {E : Type 0} (base_open : Text → Result E (BaseFile E)) where
  -- The answer without a cache: a file's contents as the base has them now.
  abbrev pub answer : Text → Result E Loaded → Result E (File E)
  answer name (err x) = err x
  answer name (ok directory) = reopen base_open name
  answer name (ok (file e)) = ok (cached (item e))

  abbrev pub direct : Text → Result E (File E)
  direct name = answer name (load base_open name)

  -- Every cached item is what the base gives under its name.
  abbrev pub Faithful : List Item → Type 0
  Faithful = All (λ i. direct i.name ≡ ok (cached i))

  Faithful-fitting : (b : ℕ) (is : List Item) → Faithful is → Faithful (fitting b is)
  unfolding fitting
  Faithful-fitting b [] f = tt
  Faithful-fitting b (i ∷ is) (p, f) = elim (Bool-cases (leb i.size b)) [
    | inl fits ↦ rw fits (p, Faithful-fitting (b - i.size) is f)
    | inr large ↦ rw large tt
  ]

  Faithful-remove : (n : Text) (is : List Item) → Faithful is → Faithful (remove n is)
  unfolding remove
  Faithful-remove n [] f = tt
  Faithful-remove n (i ∷ is) (p, f) = elim (Bool-cases (i.name == n)) [
    | inl e ↦ rw e f
    | inr e ↦ rw e (p, Faithful-remove n is f)
  ]

  find-named : (n : Text) (is : List Item) (i : Item) → find n is ≡ some i → i.name ≡ n
  unfolding find
  find-named n [] i h = cc
  find-named n (j ∷ is) i h = elim (text_eq.dec j.name n) [
    | yes e ↦
        let same : j ≡ i = some-injective j i (rw (if_pos _ e) at h) in
        ap (λ (k : Item). k.name) (sym same) ∙ e
    | no ne ↦ find-named n is i (rw (if_neg _ ne) at h)
  ]

  find-Faithful :
      (n : Text) (is : List Item) (i : Item)
      → Faithful is
      → find n is ≡ some i
      → direct i.name ≡ ok (cached i)
  unfolding find
  find-Faithful n [] i f h = cc
  find-Faithful n (j ∷ is) i (p, f) h = elim (Bool-cases (j.name == n)) [
    | inl e ↦
        let same : j ≡ i = some-injective j i (rw e at h) in
        subst (λ k. direct k.name ≡ ok (cached k)) same p
    | inr e ↦ find-Faithful n is i f (rw e at h)
  ]

  abbrev Sound : Text → List Item × Result E (File E) → Type 0
  Sound name (is, r) = Faithful is × (r ≡ direct name)

  keep-Sound :
      (max : ℤ) (is : List Item) (name : Text) (l : Result E Loaded)
      → load base_open name ≡ l
      → ((e : CacheEntry) → l ≡ ok (file e) → e.name ≡ name)
      → Faithful is
      → Faithful (recent_keep base_open max is name l).0
        × ((recent_keep base_open max is name l).1 ≡ answer name l)
  unfolding recent_keep add
  keep-Sound max is name (err x) e n f = (f, refl)
  keep-Sound max is name (ok directory) e n f = (f, refl)
  keep-Sound max is name (ok (file x)) e n f = elim (Bool-cases (exceeds x.size max)) [
    | inl large ↦ rw large (f, refl)
    | inr small ↦
        let own : direct x.name ≡ ok (cached (item x)) =
          ap direct (n x refl) ∙ ap (answer name) e in
        rw small ((own, Faithful-fitting (pos_part max - x.size) is f), refl)
  ]

  open-Sound :
      (max : ℤ) (is : List Item) (name : Text)
      → Faithful is
      → Sound name (recent_open base_open max is name)
  unfolding recent_open
  open-Sound max is name f = elim (Option-cases (find name is)) [
    | inl miss ↦
        rw miss (keep-Sound max is name (load base_open name) refl (load-name base_open name) f)
    | inr (i, hit) ↦
        let p = find-Faithful name is i f hit in
        rw hit ((p, Faithful-remove name is f), sym p ∙ ap direct (find-named name is i hit))
  ]

  -- The answers to a series of calls of `Open`.
  unfoldable pub open_all : LruCacheFs → List Text → Option (LruCacheFs × List (Result E (File E)))
  open_all c [] = some (c, [])
  open_all c (name ∷ names) = do
    (d, r) ← open_file base_open c name
    (d', rs) ← open_all d names
    some (d', r ∷ rs)

  -- A cache that holds true items only, within its budget.
  abbrev pub Serves : ℤ → LruCacheFs → Type 0
  Serves max c =
      (is : List Item) × Represents c is
      × Faithful is
      × (c.max_bytes ≡ max)
      × (c.cur_bytes ≤ pos_part max)

  open_all-Serves :
      (max : ℤ) (names : List Text) (c : LruCacheFs)
      → Serves max c
      → (d : LruCacheFs) × (open_all c names ≡ some (d, map direct names)) × Serves max d
  unfolding open_all
  open_all-Serves max [] c s = (c, refl, s)
  open_all-Serves max (name ∷ names) c (is, rep, f, same, _) =
      let (d, run, rep', same') = open-recent_open base_open c is rep name in
      let (f', r) = open-Sound c.max_bytes is name f in
      let within : d.cur_bytes ≤ pos_part max =
        subst (λ z. d.cur_bytes ≤ pos_part z) (same' ∙ same) rep'.repr.within in
      let (d', rest, s) = open_all-Serves max names d (_, rep', f', same' ∙ same, within) in
      (d', rw (run, rest, r), s)

  pub open_all-direct :
      (max : ℤ) (names : List Text)
      → (d : LruCacheFs) × (open_all (new_lru_cache_fs max) names ≡ some (d, map direct names))
        × (d.cur_bytes ≤ pos_part max)
  open_all-direct max names =
      let start : Serves max (new_lru_cache_fs max) = (
        [],
        record { chain = []; repr = new-Repr max; view = refl },
        tt,
        new_max max,
        subst (λ z. (new_lru_cache_fs max).cur_bytes ≤ pos_part z) (new_max max)
            (new-Repr max).within,
      ) in
      let (d, run, s) = open_all-Serves max names (new_lru_cache_fs max) start in (d, run, s.4)
