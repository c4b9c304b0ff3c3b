-- ===== src/Archive/Clean.antt =====
-- What a download leaves on the disk where it fails.
use swim.Prelude.{◌≡◌, subst, Bool, true, false, ◌++◌, Text, text, Result, ok, err, if◌then◌else◌}
use swim.Prelude.Int.{ℤ, exceeds}
use swim.Config.Decimal.{decimal_ℤ}
use swim.Prelude.Actions.{Action, return, and_then, caught, wrapped}
use swim.Archive.{Disk, copy_and_close, download_to_file, hash_file, open_zip_fs, download_zip_fs}

-- `Q` of the state behind an error.
unfoldable pub Fails : {S A : Type 0} → (S → Type 0) → S × Result Text A → Type 0
Fails Q (s, ok a) = Unit
Fails Q (s, err e) = Q s

module _ {S : Type 0} (Q : S → Type 0) where
  Fails-ok : {A : Type 0} (a : A) (s : S) → Fails Q (s, ok a)
  unfolding Fails
  Fails-ok a s = tt

  Fails-err : (A : Type 0) (e : Text) (s : S) → Q s → Fails {A = A} Q (s, err e)
  unfolding Fails
  Fails-err A e s q = q

  ran-Fails :
      {A B : Type 0} (f : A → Action S Text B) (a : A) (s : S)
      → Fails Q (f a s)
      → Fails Q (and_then f (s, ok a))
  unfolding and_then
  ran-Fails f a s k = k

  and_then-Fails :
      {A B : Type 0} (f : A → Action S Text B) (r : S × Result Text A)
      → Fails Q r
      → ((a : A) (s : S) → Fails Q (f a s))
      → Fails Q (and_then f r)
  unfolding Fails and_then
  and_then-Fails f (s, ok a) q k = k a s
  and_then-Fails f (s, err e) q k = q

  caught-Fails :
      {A B : Type 0} (f : A → Action S Text B) (h : Text → Action S Text B) (r : S × Result Text A)
      → ((a : A) (s : S) → Fails Q (f a s))
      → ((e : Text) (s : S) → Fails Q (h e s))
      → Fails Q (caught f h r)
  unfolding Fails caught
  caught-Fails f h (s, ok a) k l = k a s
  caught-Fails f h (s, err e) k l = l e s

  wrapped-Fails :
      {A : Type 0} (f : Text → Text) (r : S × Result Text A) → Fails Q r → Fails Q (wrapped f r)
  unfolding Fails wrapped
  wrapped-Fails f (s, ok a) q = tt
  wrapped-Fails f (s, err e) q = q

  if-Fails :
      {A : Type 0} (b : Bool) (m n : Action S Text A) (s : S)
      → Fails Q (m s)
      → Fails Q (n s)
      → Fails Q ((if b then m else n) s)
  if-Fails true m n s km kn = km
  if-Fails false m n s km kn = kn

module _ {S Fs Reader Handle : Type 0} (disk : Disk S Fs Reader Handle) (path : Text) where
  -- What a disk does to the file at the path: `Absent` says that there is none.
  pub record Files (Absent : S → Type 0) : Type 0 where
    pub parents : (s : S) → Absent s → Absent (disk.mkdir_parents path s)
    pub not_created : (s : S) → Absent s → Fails Absent (disk.create path s)
    pub removed : (s : S) → Absent (disk.remove path s)

  module _ (Absent : S → Type 0) (files : Files Absent) (r : Reader) (max_size : ℤ) where
    download_to_file-Fails :
        (s : S) → Absent s → Fails Absent (download_to_file disk r max_size path s)
    unfolding download_to_file
    download_to_file-Fails s absent = ran-Fails Absent _ tt (disk.mkdir_parents path s) (
        and_then-Fails Absent _ _
          (wrapped-Fails Absent _ _ (files.not_created _ (files.parents s absent)))
          (λ f t.
            caught-Fails Absent _ _ (copy_and_close disk f (disk.copy_limited f r max_size t))
              (λ n u.
                if-Fails Absent (exceeds n max_size)
                  (λ v. (
                    disk.remove path v,
                    err (text "archive exceeds max size " ++ decimal_ℤ max_size),
                  ))
                  (return tt) u (Fails-err Absent Unit _ (disk.remove path u) (files.removed u))
                  (Fails-ok Absent tt u))
              (λ e u. Fails-err Absent Unit _ (disk.remove path u) (files.removed u))))

    -- Where the disk has no new file at the path when it makes the parents or fails to create it, and
    -- none when it has removed it, a download that ends with an error leaves no file at its path if
    -- there was none: whether it could not create, copy, close, hash or open the file, or it was too
    -- large.
    pub download_zip_fs-Absent :
        (s t : S) (e : Text)
        → Absent s
        → download_zip_fs disk r max_size path s ≡ (t, err e)
        → Absent t
    unfolding download_zip_fs Fails
    download_zip_fs-Absent s t e absent is = subst (Fails Absent) is (
        and_then-Fails Absent _ _ (download_to_file-Fails s absent) (λ _ u.
          caught-Fails Absent _ _ (hash_file disk path u)
            (λ digest v.
              caught-Fails Absent _ _ (open_zip_fs disk path v) (λ a w. tt)
                (λ e w. files.removed w))
            (λ e v. files.removed v)))
