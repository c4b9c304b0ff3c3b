-- ===== src/Github/Download.antt =====
-- What `DownloadArtifact` gives out has been checked.
use swim.Prelude.{
  ℕ, ◌≡◌, ◌≢◌, refl, arith, Bool, true, false, not, ◌&&◌, Text, text, ◌++◌, text_eq, ◌==◌,
  if◌then◌else◌, Result, ok, err, Bool-cases, inl, inr, is_empty, nat_eq,
}
use swim.Prelude.Int.{ℤ, pos, ltb_ℤ}
use swim.Prelude.Actions.{Action}
use swim.Prelude.Yields.{
  Yields, Yields-ok, Yields-err, Yields-any, and_then-Yields, caught-Yields, wrapped-Yields,
}
use swim.Archive.{Disk, hash_file, finish_hash, download_zip_fs}
use swim.Github.Client.{Settings, Remote, Response, checked, extract, received, download_artifact}

module _ {S Fs Body Handle : Type 0} (disk : Disk S Fs Body Handle) (P : Text → Type 0)
    (hashes : (f : Handle) (s : S) → Yields (λ d. P (text "sha256:" ++ d)) (disk.hash f s)) where
  finish-Yields :
      (f : Handle) (r : S × Result Text Text)
      → Yields (λ d. P (text "sha256:" ++ d)) r
      → Yields P (finish_hash disk f r)
  unfolding Yields
  finish-Yields f (s, ok d) y = y
  finish-Yields f (s, err e) y = tt

  hash-Yields : (path : Text) (s : S) → Yields P (hash_file disk path s)
  unfolding hash_file
  hash-Yields path s =
      and_then-Yields (λ _. Unit) P _ _ (Yields-any _) (λ f v _. finish-Yields f _ (hashes f v))

  abbrev pub OfDigest : Fs × ℕ × Text × Handle × Text → Type 0
  OfDigest (fs, n, digest, f, path) = P digest

  -- A download gives out the digest that the disk's hash came to, with its prefix.
  pub zip-Yields :
      (r : Body) (max_size : ℤ) (path : Text) (s : S)
      → Yields OfDigest (download_zip_fs disk r max_size path s)
  unfolding download_zip_fs
  zip-Yields r max_size path s =
      and_then-Yields (λ _. Unit) OfDigest _ _ (Yields-any _)
        (λ _ v _.
          caught-Yields P OfDigest _ _ _ (hash-Yields path v)
            (λ digest u p.
              caught-Yields (λ _. Unit) OfDigest _ _ _ (Yields-any _)
                (λ (fs, n, f) t _. Yields-ok OfDigest _ t p) (λ e t. Yields-err OfDigest e _))
            (λ e u. Yields-err OfDigest e _))

module _ {S Body Fs Handle : Type 0} (remote : Remote S Body) (disk : Disk S Fs Body Handle)
    (c : Settings) (expected : Text) where
  abbrev Never : {A : Type 0} → A → Type 0
  Never _ = ⊥

  if-Yields :
      {A : Type 0} (P : A → Type 0) (b : Bool) (m n : Action S Text A) (s : S)
      → (b ≡ true → Yields P (m s))
      → (b ≡ false → Yields P (n s))
      → Yields P ((if b then m else n) s)
  if-Yields P true m n s y z = y refl
  if-Yields P false m n s y z = z refl

  checked-Yields :
      (id : ℕ) (fs : Fs) (n : ℕ) (digest : Text) (f : Handle) (path : Text) (s : S)
      → is_empty expected ≡ false
      → digest ≢ expected
      → Yields Never (checked remote disk c id expected (fs, n, digest, f, path) s)
  checked-Yields id fs n digest f path s given differs =
      if-Yields Never (not (is_empty expected) && not (digest == expected)) _ _ s
        (λ _. Yields-err Never _ _) (λ same. absurd (ground arith))

  module _ (given : is_empty expected ≡ false)
      (hashes : (f : Handle) (v : S)
        → Yields (λ d. text "sha256:" ++ d ≢ expected) (disk.hash f v)) where
    extract-Yields :
        (id : ℕ) (max_size : ℤ) (body : Body) (s : S)
        → Yields Never (extract remote disk c id max_size expected body s)
    unfolding extract
    extract-Yields id max_size body s =
        and_then-Yields (OfDigest disk (λ d. d ≢ expected) hashes) Never _ _
          (wrapped-Yields _ _ _ (zip-Yields disk (λ d. d ≢ expected) hashes body max_size _ s))
          (λ (fs, n, digest, f, path) t differs.
            checked-Yields id fs n digest f path t given differs)

    received-Yields :
        (id : ℕ) (max_size : ℤ) (resp : Response Body) (s : S)
        → Yields Never (received remote disk c id max_size expected resp s)
    unfolding received
    received-Yields id max_size resp s = elim (Bool-cases (resp.status_code == 404)) [
      | inl missing ↦ rw missing (Yields-err Never _ s)
      | inr there ↦ rw there (elim (Bool-cases (resp.status_code == 200)) [
        | inr other ↦ rw other (Yields-err Never _ s)
        | inl fine ↦
            rw fine
              (elim (Bool-cases
                (ltb_ℤ (pos 0) resp.content_length && ltb_ℤ max_size resp.content_length)) [
                  | inl large ↦ rw large (Yields-err Never _ s)
                  | inr small ↦ rw small (extract-Yields id max_size resp.body s)
                ])
      ])
    ]

  -- Where a digest is expected and no hash of a file, behind the prefix sha256:, comes to it, no
  -- artifact is given out, whatever is sent.
  pub download_artifact-digest :
      (id : ℕ) (max_size : ℤ) (s : S)
      → is_empty expected ≡ false
      → ((f : Handle) (v : S) → Yields (λ d. text "sha256:" ++ d ≢ expected) (disk.hash f v))
      → Yields (λ _. ⊥) (download_artifact remote disk c id max_size expected s)
  unfolding download_artifact
  download_artifact-digest id max_size s given hashes =
      and_then-Yields (λ _. Unit) Never _ _ (Yields-any _)
        (λ _ v _.
          and_then-Yields (λ _. Unit) Never _ _ (Yields-any _)
            (λ resp u _. received-Yields given hashes id max_size resp u))
