-- ===== src/Github/Confined/Download.antt =====
-- The same of a download, and of the client as a whole.
use swim.Prelude.{
  ℕ, not, Option, none, some, ◌&&◌, Text, text_eq, nat_eq, ◌==◌, is_empty, Result, ok, err,
}
use swim.Prelude.Int.{ℤ, pos, ltb_ℤ, exceeds}
use swim.Archive.{
  Disk, copy_and_close, finish_hash, closed, cleanup, download_to_file, hash_file, open_zip_fs,
  download_zip_fs,
}
use swim.Github.Client.{
  Settings, Remote, Response, get_pr_state, resolve_pr, resolve_branch, checked, extract, received,
  download_artifact, zip_path,
}
use swim.Github.Confined.{
  Keeps, and_then-Keeps, caught-Keeps, wrapped-Keeps, if-Keeps, Outside, zip-Allowed, append-Below,
  repo-Below, get_pr_state-Keeps, resolve_pr-Keeps, resolve_branch-Keeps,
}

module _ {S Body Fs Handle : Type 0} (remote : Remote S Body) (disk : Disk S Fs Body Handle)
    (c : Settings) (I : S → Type 0) (o : Outside remote disk c I) where
  closed-Keeps : (r : Result Text ℕ) (x : S × Option Text) → I x.0 → I (closed disk r x).0
  closed-Keeps (ok n) (s, none) k = k
  closed-Keeps (ok n) (s, some e) k = k
  closed-Keeps (err e) (s, x) k = k

  copy-Keeps : (f : Handle) (x : S × Result Text ℕ) → I x.0 → I (copy_and_close disk f x).0
  copy-Keeps f (s, r) k = closed-Keeps r (disk.close_file f s) (o.close_file f s k)

  download_to_file-Keeps :
      (r : Body) (max : ℤ) (path : Text) → Keeps I (download_to_file disk r max path)
  unfolding download_to_file
  download_to_file-Keeps r max path s k = and_then-Keeps I _ _ (o.mkdir_parents path s k) (λ _ v kv.
      and_then-Keeps I _ _ (wrapped-Keeps I _ _ (o.create path v kv)) (λ f u ku.
        caught-Keeps I _ _ _
          (copy-Keeps f (disk.copy_limited f r max u) (o.copy_limited f r max u ku))
          (λ n. if-Keeps I (exceeds n max) _ _ (λ t kt. o.remove path t kt) (λ t kt. kt))
          (λ e t kt. o.remove path t kt)))

  hash-Keeps : (f : Handle) (x : S × Result Text Text) → I x.0 → I (finish_hash disk f x).0
  hash-Keeps f (s, r) k = o.close_file f s k

  hash_file-Keeps : (path : Text) → Keeps I (hash_file disk path)
  unfolding hash_file
  hash_file-Keeps path s k =
      and_then-Keeps I _ _ (o.open_file path s k)
        (λ f v kv. hash-Keeps f (disk.hash f v) (o.hash f v kv))

  open_zip_fs-Keeps : (path : Text) → Keeps I (open_zip_fs disk path)
  unfolding open_zip_fs
  open_zip_fs-Keeps path s k = and_then-Keeps I _ _ (o.open_file path s k) (λ f v kv.
      caught-Keeps I _ _ _ (o.file_size f v kv)
        (λ n u ku.
          caught-Keeps I _ _ _ (o.zip_reader f n u ku) (λ fs t kt. kt)
            (λ e t kt. o.close_file f t kt))
        (λ e u ku. o.close_file f u ku))

  download_zip_fs-Keeps :
      (r : Body) (max : ℤ) (path : Text) → Keeps I (download_zip_fs disk r max path)
  unfolding download_zip_fs
  download_zip_fs-Keeps r max path s k =
      and_then-Keeps I _ _ (download_to_file-Keeps r max path s k) (λ _ v kv.
        caught-Keeps I _ _ _ (hash_file-Keeps path v kv)
          (λ digest u ku.
            caught-Keeps I _ _ _ (open_zip_fs-Keeps path u ku) (λ got t kt. kt)
              (λ e t kt. o.remove path t kt))
          (λ e u ku. o.remove path u ku))

  cleanup-Keeps : (f : Handle) (path : Text) (s : S) → I s → I (cleanup disk (f, path) s)
  unfolding cleanup
  cleanup-Keeps f path s k = o.remove path _ (o.close_file f s k)

  checked-Keeps :
      (id : ℕ) (expected : Text) (got : Fs × ℕ × Text × Handle × Text)
      → Keeps I (checked remote disk c id expected got)
  checked-Keeps id expected (fs, size, digest, f, path) =
      if-Keeps I (not (is_empty expected) && not (digest == expected)) _ _
        (λ s k. cleanup-Keeps f path s k) (λ s k. k)

  extract-Keeps :
      (id : ℕ) (max : ℤ) (expected : Text) (body : Body)
      → Keeps I (extract remote disk c id max expected body)
  unfolding extract
  extract-Keeps id max expected body s k =
      and_then-Keeps I _ _
        (wrapped-Keeps I _ _ (download_zip_fs-Keeps body max (zip_path remote disk c id) s k))
        (λ got. checked-Keeps id expected got)

  received-Keeps :
      (id : ℕ) (max : ℤ) (expected : Text) (resp : Response Body)
      → Keeps I (received remote disk c id max expected resp)
  unfolding received
  received-Keeps id max expected resp =
      if-Keeps I (resp.status_code == 404) _ _ (λ s k. k)
        (if-Keeps I (not (resp.status_code == 200)) _ _ (λ s k. k)
          (if-Keeps I (ltb_ℤ (pos 0) resp.content_length && ltb_ℤ max resp.content_length) _ _
            (λ s k. k) (extract-Keeps id max expected resp.body)))

  download_artifact-Keeps :
      (id : ℕ) (max : ℤ) (expected : Text)
      → Keeps I (download_artifact remote disk c id max expected)
  unfolding download_artifact
  download_artifact-Keeps id max expected s k =
      and_then-Keeps I _ _ (wrapped-Keeps I _ (remote.wait s) (o.wait s k)) (λ _ v kv.
        and_then-Keeps I _ _
          (o.send _
            (zip-Allowed remote disk c I _ (
              append-Below remote disk c I _ _ (
                append-Below remote disk c I _ _
                  (append-Below remote disk c I _ _ (repo-Below remote disk c I)))))
            v kv)
          (λ resp. received-Keeps id max expected resp))

  -- Whatever claim about the world outside is kept by the limiter, by the disk, and by each request
  -- whose URL begins with that of the repository at the API and whose Authorization header is Bearer
  -- and the token, or empty where the token is, is kept by `ResolvePR`, `ResolveBranch`,
  -- `GetPRState` and `DownloadArtifact`: the client makes no other request.
  pub client-Keeps :
      ((n : ℕ) → Keeps I (resolve_pr remote disk c n))
      × ((branch : Text) → Keeps I (resolve_branch remote disk c branch))
      × ((n : ℕ) → Keeps I (get_pr_state remote disk c n))
      × ((id : ℕ) (max : ℤ) (expected : Text)
          → Keeps I (download_artifact remote disk c id max expected))
  client-Keeps = (
    resolve_pr-Keeps remote disk c I o,
    resolve_branch-Keeps remote disk c I o,
    get_pr_state-Keeps remote disk c I o,
    download_artifact-Keeps,
  )
