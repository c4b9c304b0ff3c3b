-- ===== src/Vfs/Laws.antt =====
-- Which file system a URL gives, and which object it names.
use swim.Prelude.{
  ◌≡◌, ◌≢◌, refl, ap, ◌∙◌, subst, arith, ◌⊎◌, inl, inr, Bool, true, false, not, ◌||◌, [], ◌∷◌, ◌++◌,
  Text, text, text_eq, nat_eq, ◌==◌, has, is_empty, trim_prefix, trim_prefix-append, Result, ok,
  err, if◌then◌else◌, ℕ_discrete,
}
use swim.Prelude.Actions.{Action}
use swim.Prelude.Yields.{Yields, Yields-ok, Yields-err, Yields-any, and_then-Yields}
use swim.Archive.{filesystem_of, filesystem_from_reader}
use swim.Afero.{Afero}
use swim.Vfs.Config.{Overlay}
use swim.Vfs.Sources.{
  Location, Host, type_of, close_after, read_archive, open_file, open_http, split_bucket, object_of,
  open_s3, read_gcs, close_client_after, open_gcs, open_location, open_raw_filesystem, shifted,
}

module _ {S F I E R C G : Type 0} (afero : Afero F I E) (host : Host S F R C G) (o : Overlay) where
  -- The directory that a URL names, or an archive that is read by the type that is configured, or
  -- else told by the URL's name.
  abbrev pub Archived : Location → F → Type 0
  Archived u fs =
      (fs ≡ afero.base_path afero.os_fs u.path)
      ⊎ ((body : Text) × (filesystem_of host.readers (type_of afero host o u) body ≡ ok fs))

  -- The file system of the URL that a root is.
  abbrev pub Rooted : Text → F → Type 0
  Rooted root fs = (u : Location) × (host.parse_url root ≡ ok u) × Archived u fs

  parsed-Yields : (r : Result Text Location) (s : S) → Yields (λ u. r ≡ ok u) (s, r)
  unfolding Yields
  parsed-Yields (ok u) s = refl
  parsed-Yields (err e) s = tt

  Yields-implies :
      (P Q : F → Type 0) (r : S × Result Text F)
      → ((fs : F) → P fs → Q fs)
      → Yields P r
      → Yields Q r
  unfolding Yields
  Yields-implies P Q (s, ok fs) k y = k fs y
  Yields-implies P Q (s, err e) k y = tt

  result_lem :
      (P : F → Type 0) (r : Result Text F) (s : S) → ((fs : F) → r ≡ ok fs → P fs) → Yields P (s, r)
  unfolding Yields
  result_lem P (ok fs) s k = k fs refl
  result_lem P (err e) s k = tt

  from_reader-Archived :
      (u : Location) (body : R) (s : S)
      → Yields (Archived u) (filesystem_from_reader host.readers (type_of afero host o u) body s)
  unfolding filesystem_from_reader
  from_reader-Archived u body s =
      and_then-Yields (λ _. Unit) (Archived u) _ _ (Yields-any _)
        (λ bytes t _.
          result_lem (Archived u) (filesystem_of host.readers (type_of afero host o u) bytes) t
            (λ fs is. inr (bytes, is)))

  close_after-Archived :
      (u : Location) (body : R) (r : S × Result Text F)
      → Yields (Archived u) r
      → Yields (Archived u) (close_after afero host body r)
  unfolding Yields
  close_after-Archived u body (s, ok fs) y = y
  close_after-Archived u body (s, err e) y = tt

  close_client-Archived :
      (u : Location) (client : G) (r : S × Result Text F)
      → Yields (Archived u) r
      → Yields (Archived u) (close_client_after afero host client r)
  unfolding Yields
  close_client-Archived u client (s, ok fs) y = y
  close_client-Archived u client (s, err e) y = tt

  if-Archived :
      (u : Location) (b : Bool) (m n : Action S Text F) (s : S)
      → Yields (Archived u) (m s)
      → Yields (Archived u) (n s)
      → Yields (Archived u) ((if b then m else n) s)
  if-Archived u true m n s km kn = km
  if-Archived u false m n s km kn = kn

  read_archive-Archived :
      (u : Location) (body : R) (s : S) → Yields (Archived u) (read_archive afero host o u body s)
  unfolding read_archive
  read_archive-Archived u body s = close_after-Archived u body _ (from_reader-Archived u body s)

  open_file-Archived : (u : Location) (s : S) → Yields (Archived u) (open_file afero host o u s)
  unfolding open_file
  open_file-Archived u s =
      and_then-Yields (λ _. Unit) (Archived u) _ _ (Yields-any _)
        (λ is_dir t _.
          if-Archived u is_dir _ _ t
            (Yields-ok (Archived u) (afero.base_path afero.os_fs u.path) t (inl refl))
            (and_then-Yields (λ _. Unit) (Archived u) _ _ (Yields-any _)
              (λ file v _. from_reader-Archived u file v)))

  open_http-Archived : (u : Location) (s : S) → Yields (Archived u) (open_http afero host o u s)
  unfolding open_http
  open_http-Archived u s =
      and_then-Yields (λ _. Unit) (Archived u) _ _ (Yields-any _)
        (λ resp t _.
          if-Archived u (not (resp.status_code == 200)) _ _ t (Yields-err (Archived u) _ _)
            (read_archive-Archived u resp.body t))

  open_s3-Archived : (u : Location) (s : S) → Yields (Archived u) (open_s3 afero host o u s)
  unfolding open_s3
  open_s3-Archived u s =
      and_then-Yields (λ _. Unit) (Archived u) _ _ (Yields-any _)
        (λ body t _. read_archive-Archived u body t)

  read_gcs-Archived :
      (u : Location) (bucket key : Text) (client : G) (s : S)
      → Yields (Archived u) (read_gcs afero host o u bucket key client s)
  read_gcs-Archived u bucket key client s = close_client-Archived u client _ (
      and_then-Yields (λ _. Unit) (Archived u) _ _ (Yields-any _)
        (λ body t _. read_archive-Archived u body t))

  open_gcs-Archived : (u : Location) (s : S) → Yields (Archived u) (open_gcs afero host o u s)
  unfolding open_gcs
  open_gcs-Archived u s = if-Archived u (is_empty u.host) _ _ s (Yields-err (Archived u) _ s) (
      if-Archived u (is_empty (trim_prefix u.path (text "/"))) _ _ s (Yields-err (Archived u) _ s) (
        and_then-Yields (λ _. Unit) (Archived u) _ _ (Yields-any _)
          (λ client t _. read_gcs-Archived u u.host _ client t)))

  open_location-Archived :
      (u : Location) (s : S) → Yields (Archived u) (open_location afero host o u s)
  open_location-Archived u s =
      if-Archived u ((u.scheme == text "file") || is_empty u.scheme) _ _ s (open_file-Archived u s)
        (if-Archived u ((u.scheme == text "http") || (u.scheme == text "https")) _ _ s
          (open_http-Archived u s)
          (if-Archived u (u.scheme == text "s3") _ _ s (open_s3-Archived u s) (
            if-Archived u (u.scheme == text "gs") _ _ s (open_gcs-Archived u s)
              (Yields-err (Archived u) _ s))))

  pub open_raw-Archived :
      (s t : S) (fs : F) → open_raw_filesystem afero host o s ≡ (t, ok fs) → Rooted o.root fs
  unfolding open_raw_filesystem Yields
  open_raw-Archived s t fs is = subst (Yields (Rooted o.root)) is (
      and_then-Yields (λ u. host.parse_url o.root ≡ ok u) (Rooted o.root) _ _
        (parsed-Yields (host.parse_url o.root) s)
        (λ u v parsed.
          Yields-implies (Archived u) (Rooted o.root) (open_location afero host o u v)
            (λ fs a. (u, parsed, a)) (open_location-Archived u v)))

module _ {S F I E R C G : Type 0} (afero : Afero F I E) (host : Host S F R C G) where
  split_bucket-join :
      (bucket key : Text)
      → has b'/' bucket ≡ false
      → split_bucket afero host (bucket ++ (b'/' ∷ key)) ≡ (bucket, key)
  unfolding split_bucket ℕ_discrete
  split_bucket-join [] key plain = refl
  split_bucket-join (c ∷ bucket) key plain =
      let other : (c == b'/') ≡ false = ground arith in
      let more : has b'/' bucket ≡ false = ground arith in
      ap
        (λ b.
          if b
          then ([], bucket ++ (b'/' ∷ key))
          else shifted afero host c (split_bucket afero host (bucket ++ (b'/' ∷ key))))
        other
      ∙ ap (shifted afero host c) (split_bucket-join bucket key more)

  key_lem : (name key : Text) → name ≢ [] → object_of afero host name (b'/' ∷ key) ≡ (name, key)
  unfolding object_of
  key_lem [] key named = absurd (named refl)
  key_lem (c ∷ name) key named = ap (λ k. (c ∷ name, k)) (trim_prefix-append (text "/") key)

  -- The object that an S3 URL names: with no bucket configured, the first part of the path, where
  -- it has no slash, is the bucket, and the rest behind the slash is the key; with a bucket that is
  -- configured, the path is the key.
  pub object_of-path :
      (bucket name key : Text)
      → has b'/' bucket ≡ false
      → name ≢ []
      → (object_of afero host [] (b'/' ∷ (bucket ++ (b'/' ∷ key))) ≡ (bucket, key))
        × (object_of afero host name (b'/' ∷ key) ≡ (name, key))
  unfolding object_of
  object_of-path bucket name key plain named = (
    ap (split_bucket afero host) (trim_prefix-append (text "/") (bucket ++ (b'/' ∷ key)))
        ∙ split_bucket-join bucket key plain,
    key_lem name key named,
  )
