-- ===== src/Vfs/Sources.antt =====
-- Where a `vfs` file system comes from, by the scheme of its URL: provider.go, s3.go and gcs.go.
use swim.Prelude.{
  ℕ, Bool, true, false, not, ◌&&◌, ◌||◌, Option, none, some, List, [], ◌∷◌, ◌++◌, Text, text,
  text_eq, nat_eq, ◌==◌, is_empty, to_lower, trim_prefix, Result, ok, err, if◌then◌else◌,
}
use swim.Prelude.Dict.{Dict}
use swim.Prelude.Actions
use swim.Prelude.Actions.{Action, ◌>>=◌}
use swim.Http
use swim.Http.{Header}
use swim.Archive.{Readers, filetype_from_name, filesystem_from_reader}
use swim.Afero.{Afero}
use swim.Vfs.Config.{Overlay}

-- `url.URL`, with what its `String` gives
pub record Location : Type 0 where
  pub scheme : Text
  pub host : Text
  pub path : Text
  pub whole : Text

pub record HttpResponse (R : Type 0) : Type 0 where
  pub status_code : ℕ
  pub status : Text
  pub body : R

pub record S3Options : Type 0 where
  pub region : Text
  pub credentials : Option (Text × Text)
  pub base_endpoint : Text
  pub use_path_style : Option Bool

pub data GcsAuth : Type 0 where
  json file : Text → GcsAuth
  anonymous : GcsAuth

-- `C` and `G` are the clients of S3 and of GCS. `stat` says whether the path is a directory.
pub record Host (S F R C G : Type 0) : Type 0 where
  pub parse_url : Text → Result Text Location
  pub readers : Readers S F R
  pub stat : Text → Action S Text Bool
  pub open_file : Text → Action S Text R
  pub new_request : Text → Result Text Unit
  pub do_request : Text → Header → Action S Text (HttpResponse R)
  pub close_body : R → S → S
  pub getenv : Text → Text
  pub s3_client : S3Options → Result Text C
  pub get_object : C → Text → Text → Action S Text R
  pub decode_base64 : Text → Result Text Text
  pub gcs_client : GcsAuth → Option Text → Action S Text G
  pub read_object : G → Text → Text → Action S Text R
  pub close_client : G → S → S

module _ {S F I E R C G : Type 0} (afero : Afero F I E) (host : Host S F R C G) where
  abbrev pub lift : {A : Type 0} → Result Text A → Action S Text A
  lift r s = (s, r)

  -- The type that is configured, else what the name says
  unfoldable pub type_of : Overlay → Location → Text
  type_of o u = if is_empty o.file_type then filetype_from_name u.whole else o.file_type

  abbrev pub close_after : R → S × Result Text F → S × Result Text F
  close_after body (s, r) = (host.close_body body s, r)

  -- `archive.FilesystemFromReader(ft, body)`, with the deferred `Close`
  unfoldable pub read_archive : Overlay → Location → R → Action S Text F
  unfolding type_of
  read_archive o u body s =
      close_after body (filesystem_from_reader host.readers (type_of o u) body s)

  -- The file is not closed.
  unfoldable pub open_file : Overlay → Location → Action S Text F
  unfolding type_of
  open_file o u = host.stat u.path >>= (λ is_dir.
      if is_dir
      then (λ s. (s, ok (afero.base_path afero.os_fs u.path)))
      else host.open_file u.path >>= filesystem_from_reader host.readers (type_of o u))

  abbrev add_values : Text → List Text → Header → Header
  add_values k [] h = h
  add_values k (v ∷ vs) h = add_values k vs (Http.add h k v)

  unfoldable pub add_headers : Dict Text (List Text) → Header → Header
  add_headers [] h = h
  add_headers ((k, vs) ∷ rest) h = add_headers rest (add_values k vs h)

  unfoldable pub open_http : Overlay → Location → Action S Text F
  unfolding add_headers read_archive
  open_http o u =
      lift (host.new_request u.whole)
      >>= (λ _. host.do_request u.whole (add_headers o.headers []))
      >>= (λ resp.
          if not (resp.status_code == 200)
          then (λ s. (
            host.close_body resp.body s,
            err (text "unable to get network resource: " ++ resp.status),
          ))
          else read_archive o u resp.body)

  unfoldable pub header_or_env : Overlay → Text → Text
  header_or_env o key = let x = Http.get o.headers key in if is_empty x then host.getenv key else x

  abbrev or_text : Text → Text → Text
  or_text x default = if is_empty x then default else x

  abbrev path_style : Text → Option Bool
  path_style s =
      if (s == text "true") || (s == text "t") || (s == text "yes")
      then some true
      else if (s == text "false") || (s == text "f") || (s == text "no")
      then some false
      else none

  unfoldable pub s3_options : Overlay → Location → S3Options
  unfolding header_or_env
  s3_options o u =
      let access_key_id = header_or_env o (text "AWS_ACCESS_KEY_ID") in
      let secret_access_key = header_or_env o (text "AWS_SECRET_ACCESS_KEY") in
      record {
        region = or_text (header_or_env o (text "AWS_DEFAULT_REGION")) (text "us-east-1");
        credentials =
            (if is_empty access_key_id && is_empty secret_access_key
              then none
              else some (access_key_id, secret_access_key));
        base_endpoint =
            or_text (header_or_env o (text "AWS_ENDPOINT_URL")) (text "https://" ++ u.host);
        use_path_style = path_style (to_lower (header_or_env o (text "AWS_USE_PATH_STYLE")));
      }

  -- `strings.SplitN(path, "/", 2)` as a bucket and a key
  abbrev pub shifted : ℕ → Text × Text → Text × Text
  shifted c (bucket, key) = (c ∷ bucket, key)

  unfoldable pub split_bucket : Text → Text × Text
  split_bucket [] = ([], [])
  split_bucket (c ∷ path) =
      let rest = split_bucket path in if c == b'/' then ([], path) else shifted c rest

  unfoldable pub object_of : Text → Text → Text × Text
  unfolding split_bucket
  object_of bucket_name url_path =
      let path = trim_prefix url_path (text "/") in
      if is_empty bucket_name then split_bucket path else (bucket_name, path)

  unfoldable pub open_s3 : Overlay → Location → Action S Text F
  unfolding s3_options object_of read_archive
  open_s3 o u =
      lift (host.s3_client (s3_options o u))
      >>= (λ client.
          let (bucket, key) = object_of (header_or_env o (text "AWS_BUCKET_NAME")) u.path in
          host.get_object client bucket key)
      >>= read_archive o u

  abbrev decoded : Result Text Text → Result Text GcsAuth
  decoded (ok bytes) = ok (json bytes)
  decoded (err e) = err (text "gcs: decode GCS_CREDENTIALS_BASE64: " ++ e)

  unfoldable pub gcs_auth : Overlay → Result Text GcsAuth
  unfolding header_or_env
  gcs_auth o =
      let creds_b64 = header_or_env o (text "GCS_CREDENTIALS_BASE64") in
      let creds_file = header_or_env o (text "GOOGLE_APPLICATION_CREDENTIALS") in
      if not (is_empty creds_b64)
      then decoded (host.decode_base64 creds_b64)
      else if not (is_empty creds_file)
      then ok (file creds_file)
      else ok anonymous

  abbrev pub close_client_after : G → S × Result Text F → S × Result Text F
  close_client_after client (s, r) = (host.close_client client s, r)

  abbrev pub read_gcs : Overlay → Location → Text → Text → G → Action S Text F
  read_gcs o u bucket key client s = close_client_after client (
      Actions.and_then (read_archive o u) (
        Actions.wrapped (λ e. text "gcs: read gs://" ++ bucket ++ text "/" ++ key ++ text ": " ++ e)
          (host.read_object client bucket key s)))

  unfoldable pub open_gcs : Overlay → Location → Action S Text F
  unfolding gcs_auth read_archive
  open_gcs o u =
      let bucket = u.host in
      let key = trim_prefix u.path (text "/") in
      if is_empty bucket
      then Actions.fail (text "gcs: bucket name is required (gs://bucket/key)")
      else if is_empty key
      then Actions.fail (text "gcs: object key is required (gs://bucket/key)")
      else lift (gcs_auth o)
        >>= (λ auth.
            let endpoint = header_or_env o (text "GCS_ENDPOINT_URL") in
            Actions.wrap (λ e. text "gcs: create client: " ++ e)
              (host.gcs_client auth (if is_empty endpoint then none else some endpoint)))
        >>= read_gcs o u bucket key

  abbrev pub open_location : Overlay → Location → Action S Text F
  open_location o u =
      if (u.scheme == text "file") || is_empty u.scheme
      then open_file o u
      else if (u.scheme == text "http") || (u.scheme == text "https")
      then open_http o u
      else if u.scheme == text "s3"
      then open_s3 o u
      else if u.scheme == text "gs"
      then open_gcs o u
      else Actions.fail (text "unrecognized scheme: " ++ u.scheme)

  unfoldable pub open_raw_filesystem : Overlay → Action S Text F
  unfolding open_file open_http open_s3 open_gcs
  open_raw_filesystem o = lift (host.parse_url o.root) >>= open_location o
