-- ===== src/Handler/Api.antt =====
-- modules/github_preview/api.go: the management API over the middleware's state. Decoding the body
-- is encoding/json's, within the limit of http.MaxBytesReader: `decode` gives the request, if the
-- body is one.
pub mod Laws
use swim.Prelude.{
  ℕ, zero, suc, Bool, true, false, not, Option, none, some, List, [], ◌∷◌, ◌++◌, ◌&&◌, ◌||◌, Text,
  text, text_eq, nat_eq, ◌==◌, is_empty, has_prefix, trim_prefix, Result, ok, err, if◌then◌else◌,
  length, map,
}
use swim.Prelude.Int.{ℤ, is_zero_ℤ}
use swim.Prelude.Dict.{Dict}
use swim.Cache.Metadata.{MetadataEntry, snapshot}
use swim.Cache.Artifact.{stats}
use swim.Config.Decimal.{decimal, decimal_ℤ}
use swim.Handler.{GithubPreview, State, Layered, metadata_get, evict_key}
use swim.Handler.Resolve.{full_resolve}

pub record ApiRequest : Type 0 where
  pub method : Text
  pub path : Text
  pub provided_key : Text
  pub body : Text

pub record RefreshRequest : Type 0 where
  pub pr : ℤ
  pub branch : Text
  pub artifact_id : ℕ

pub record EvictRequest : Type 0 where
  pub pr : ℤ
  pub branch : Text

-- What the bodies decode to, if they do.
pub record Decode : Type 0 where
  pub refresh_body : Text → Option RefreshRequest
  pub evict_body : Text → Option EvictRequest

pub record StatusResponse : Type 0 where
  pub entries : List (Text × ℕ × ℕ)
  pub artifact_count : ℕ
  pub total_size_bytes : ℕ
  pub max_artifacts : ℤ

pub data ApiResponse : Type 0 where
  failure : ℕ → Text → ApiResponse
  refreshed : ℕ → Text → ℕ → Bool → Text → ApiResponse
  evicted : Text → Bool → ApiResponse
  status : StatusResponse → ApiResponse

abbrev pub request_key : RefreshRequest → Text
request_key r =
    if not (is_empty r.branch) then text "branch:" ++ r.branch else text "pr:" ++ decimal_ℤ r.pr

abbrev pub valid : RefreshRequest → Bool
valid r = not (is_zero_ℤ r.pr) || not (is_empty r.branch)

abbrev pub evict_request_key : EvictRequest → Text
evict_request_key r =
    if not (is_empty r.branch) then text "branch:" ++ r.branch else text "pr:" ++ decimal_ℤ r.pr

abbrev pub evict_valid : EvictRequest → Bool
evict_valid r = not (is_zero_ℤ r.pr) || not (is_empty r.branch)

abbrev pub authenticate_api : Text → Text → Bool
authenticate_api api_key provided = if is_empty api_key then false else provided == api_key

module _ {S Body Fs Handle : Type 0} (g : GithubPreview S Body Fs Handle) (decode : Decode)
    (api_key : Text) (max_artifacts : ℤ) where
  abbrev pub W : Type 0
  W = State S Fs Handle

  abbrev pub artifact_of : Option MetadataEntry → ℕ
  artifact_of none = 0
  artifact_of (some meta) = meta.artifact_id

  -- The answer to a refresh: an expected artifact must be the one that was found.
  abbrev pub resolved :
      RefreshRequest → Option (W × Result Text (Layered Fs)) → Option (W × ApiResponse)
  resolved r none = none
  resolved r (some (w, err e)) = some (w, refreshed 500 (request_key r) 0 false e)
  resolved r (some (w, ok fs)) =
      let aid = artifact_of (metadata_get g (request_key r) w).0 in
      some (
        w,
        (if not (r.artifact_id == 0) && not (aid == r.artifact_id)
            then refreshed 409 (request_key r) aid false (
                text "expected artifact "
                ++ decimal r.artifact_id
                ++ text " but resolved "
                ++ decimal aid)
            else refreshed 200 (request_key r) aid true []),
      )

  abbrev pub refresh_decoded : Option RefreshRequest → W → Option (W × ApiResponse)
  refresh_decoded none w = some (w, failure 400 (text "invalid JSON body"))
  refresh_decoded (some r) w =
      if valid r
      then resolved r (full_resolve g (request_key r) w)
      else some (w, failure 400 (text "pr or branch is required"))

  unfoldable pub handle_refresh : ApiRequest → W → Option (W × ApiResponse)
  handle_refresh r w = refresh_decoded (decode.refresh_body r.body) w

  abbrev pub evict_decoded : Option EvictRequest → W → Option (W × ApiResponse)
  evict_decoded none w = some (w, failure 400 (text "invalid JSON body"))
  evict_decoded (some r) w =
      if evict_valid r
      then some (evict_key g (evict_request_key r) w, evicted (evict_request_key r) true)
      else some (w, failure 400 (text "pr or branch is required"))

  unfoldable pub handle_evict : ApiRequest → W → Option (W × ApiResponse)
  handle_evict r w = evict_decoded (decode.evict_body r.body) w

  abbrev pub entry_status : Text × MetadataEntry → Text × ℕ × ℕ
  entry_status (key, meta) = (key, meta.artifact_id, meta.resolved_at)

  unfoldable pub handle_status : W → Option (W × ApiResponse)
  handle_status w =
      let (count, total_bytes) = stats w.artifact_cache in
      some (
        w,
        status (record {
          entries = map entry_status (snapshot w.metadata_cache);
          artifact_count = count;
          total_size_bytes = total_bytes;
          max_artifacts = max_artifacts;
        }),
      )

  unfoldable pub dispatch : Text → ApiRequest → W → Option (W × ApiResponse)
  dispatch subpath r w =
      if (subpath == text "refresh") && (r.method == text "POST")
      then handle_refresh r w
      else if (subpath == text "refresh") && (r.method == text "DELETE")
      then handle_evict r w
      else if (subpath == text "status") && (r.method == text "GET")
      then handle_status w
      else some (w, failure 404 (text "not found"))

  unfoldable pub handle_api : ApiRequest → W → Option (W × ApiResponse)
  handle_api r w =
      if authenticate_api api_key r.provided_key
      then dispatch (trim_prefix (trim_prefix r.path g.api_path) (text "/")) r w
      else some (w, failure 401 (text "unauthorized"))
