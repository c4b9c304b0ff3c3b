-- ===== src/Github/Newest.antt =====
-- `listRuns` gives its runs newest first.
use mathlib.Core.List.Perm
use mathlib.Core.List.{Perm}
use swim.Prelude.{
  ◌≡◌, ◌≤◌, refl, sym, subst, arith, true, false, List, [], ◌∷◌, Text, text_eq, text_lt, Bool-cases,
  inl, inr,
}
use swim.Github.{GhWorkflowRun}
use swim.Github.Runs.{newer, insert_run, sort_runs}

lt-asym : (s t : Text) → text_lt s t ≡ true → text_lt t s ≡ false
unfolding text_lt
lt-asym [] t h = refl
lt-asym (c ∷ s) [] h = cc
lt-asym (c ∷ s) (d ∷ t) h = ground (arith, lt-asym s t)

newer-asym : (a b : GhWorkflowRun) → newer a b ≡ true → newer b a ≡ false
unfolding newer
newer-asym a b h = elim (text_eq.dec a.created_at b.created_at) [
  | yes same ↦ ground (arith, sym same)
  | no differ ↦ ground (arith, lt-asym b.created_at a.created_at)
]

-- No run is newer than the one before it.
abbrev Sorted : List GhWorkflowRun → Type 0
Sorted [] = Unit
Sorted (r ∷ []) = Unit
Sorted (r ∷ s ∷ ss) = (newer s r ≡ false) × Sorted (s ∷ ss)

insert-behind :
    (s r : GhWorkflowRun) (ss : List GhWorkflowRun)
    → Sorted (s ∷ ss)
    → newer r s ≡ false
    → Sorted (s ∷ insert_run r ss)
unfolding insert_run
insert-behind s r [] o h = (h, tt)
insert-behind s r (t ∷ ts) (p, o) h = elim (Bool-cases (newer t r)) [
  | inl before ↦ rw before (p, insert-behind t r ts o (newer-asym t r before))
  | inr behind ↦ rw behind (h, (behind, o))
]

insert-Sorted : (r : GhWorkflowRun) (ss : List GhWorkflowRun) → Sorted ss → Sorted (insert_run r ss)
unfolding insert_run
insert-Sorted r [] o = tt
insert-Sorted r (s ∷ ss) o = elim (Bool-cases (newer s r)) [
  | inl before ↦ rw before (insert-behind s r ss o (newer-asym s r before))
  | inr behind ↦ rw behind (behind, o)
]

insert-Perm : (r : GhWorkflowRun) (ss : List GhWorkflowRun) → Perm (r ∷ ss) (insert_run r ss)
unfolding insert_run
insert-Perm r [] = Perm.refl (r ∷ [])
insert-Perm r (s ∷ ss) = elim (Bool-cases (newer s r)) [
  | inl before ↦ rw before (Perm.trans (Perm.swap s r ss) (Perm.cons s (insert-Perm r ss)))
  | inr behind ↦ rw behind (Perm.refl (r ∷ s ∷ ss))
]

sort_runs_lem : (rs : List GhWorkflowRun) → Sorted (sort_runs rs) × Perm rs (sort_runs rs)
unfolding sort_runs
sort_runs_lem [] = (tt, Perm.refl [])
sort_runs_lem (r ∷ rs) =
    let (o, p) = sort_runs_lem rs in
    (insert-Sorted r (sort_runs rs) o, Perm.trans (Perm.cons r p) (insert-Perm r (sort_runs rs)))

-- A run comes before another where it was not created earlier, and where, created at the same time,
-- its id is not smaller.
abbrev pub Before : GhWorkflowRun → GhWorkflowRun → Type 0
Before r s =
    (text_lt r.created_at s.created_at ≡ false) × (r.created_at ≡ s.created_at → s.id ≤ r.id)

abbrev pub Ordered : List GhWorkflowRun → Type 0
Ordered [] = Unit
Ordered (r ∷ []) = Unit
Ordered (r ∷ s ∷ ss) = Before r s × Ordered (s ∷ ss)

lt_irrefl : (s : Text) → text_lt s s ≡ false
unfolding text_lt
lt_irrefl [] = refl
lt_irrefl (c ∷ s) = ground (arith, lt_irrefl s)

newer-Before : (r s : GhWorkflowRun) → newer s r ≡ false → Before r s
unfolding newer
newer-Before r s h = elim (text_eq.dec s.created_at r.created_at) [
  | yes same ↦ (
    subst (λ t. text_lt r.created_at t ≡ false) (sym same) (lt_irrefl r.created_at),
    λ e. ground (arith, same),
  )
  | no differ ↦ (ground arith, λ e. absurd (differ (sym e)))
]

Sorted-Ordered : (rs : List GhWorkflowRun) → Sorted rs → Ordered rs
Sorted-Ordered [] o = tt
Sorted-Ordered (r ∷ []) o = tt
Sorted-Ordered (r ∷ s ∷ ss) (h, o) = (newer-Before r s h, Sorted-Ordered (s ∷ ss) o)

-- The sort of `listRuns` keeps the runs that the server listed, each once, and of two runs that
-- stand next to each other the first was not created earlier than the second and, where both were
-- created at the same time, has no smaller id.
pub sort_runs-Ordered : (rs : List GhWorkflowRun) → Ordered (sort_runs rs) × Perm rs (sort_runs rs)
sort_runs-Ordered rs = let (o, p) = sort_runs_lem rs in (Sorted-Ordered (sort_runs rs) o, p)
