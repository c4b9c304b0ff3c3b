-- ===== src/Handler/Api/Laws.antt =====
-- The management API leaves the middleware's state as a request does.
use swim.Prelude.{
  Bool, true, false, Option, none, some, Text, text_eq, Result, ok, err, if◌then◌else◌,
}
use swim.Prelude.Int.{ℤ}
use swim.Handler.{GithubPreview, Layered, State, evict_key}
use swim.Handler.Registered.{Registered, Keeps, evict_key-Registered}
use swim.Handler.Registered.Resolved.{full_resolve-Keeps}
use swim.Handler.Api.{
  ApiRequest, RefreshRequest, EvictRequest, Decode, ApiResponse, request_key, valid,
  evict_request_key, evict_valid, authenticate_api, resolved, refresh_decoded, evict_decoded,
  handle_refresh, handle_evict, handle_status, dispatch, handle_api,
}

module _ {S Body Fs Handle : Type 0} (g : GithubPreview S Body Fs Handle) (decode : Decode)
    (api_key : Text) (max_artifacts : ℤ) where
  unfoldable pub Left : Option (State S Fs Handle × ApiResponse) → Type 0
  Left none = Unit
  Left (some (w, r)) = Registered g w

  if-Left :
      (b : Bool) (m n : Option (State S Fs Handle × ApiResponse))
      → Left m
      → Left n
      → Left (if b then m else n)
  if-Left true m n p q = p
  if-Left false m n p q = q

  resolved-Left :
      (r : RefreshRequest) (o : Option (State S Fs Handle × Result Text (Layered Fs)))
      (P : Layered Fs → State S Fs Handle → Type 0)
      → Keeps g P o
      → Left (resolved g decode api_key max_artifacts r o)
  unfolding Left Keeps
  resolved-Left r none P k = tt
  resolved-Left r (some (w, ok fs)) P k = k.0
  resolved-Left r (some (w, err e)) P k = k

  same-Left : (w : State S Fs Handle) (r : ApiResponse) → Registered g w → Left (some (w, r))
  unfolding Left
  same-Left w r k = k

  refresh-Left :
      (o : Option RefreshRequest) (w : State S Fs Handle)
      → Registered g w
      → Left (refresh_decoded g decode api_key max_artifacts o w)
  refresh-Left none w k = same-Left w _ k
  refresh-Left (some r) w k =
      if-Left (valid r) _ _ (resolved-Left r _ _ (full_resolve-Keeps g (request_key r) w k))
        (same-Left w _ k)

  evict-Left :
      (o : Option EvictRequest) (w : State S Fs Handle)
      → Registered g w
      → Left (evict_decoded g decode api_key max_artifacts o w)
  evict-Left none w k = same-Left w _ k
  evict-Left (some r) w k =
      if-Left (evict_valid r) _ _
        (same-Left (evict_key g (evict_request_key r) w) _
          (evict_key-Registered g (evict_request_key r) w k))
        (same-Left w _ k)

  -- From a state where each key with metadata has a registered file system and one entry, a call
  -- of the management API leaves such a state, whatever it asks for.
  pub handle_api-Left :
      (r : ApiRequest) (w : State S Fs Handle)
      → Registered g w
      → Left (handle_api g decode api_key max_artifacts r w)
  unfolding handle_api dispatch handle_refresh handle_evict handle_status
  handle_api-Left r w k =
      if-Left (authenticate_api api_key r.provided_key) _ _
        (if-Left _ _ _ (refresh-Left (decode.refresh_body r.body) w k) (
          if-Left _ _ _ (evict-Left (decode.evict_body r.body) w k)
            (if-Left _ _ _ (same-Left w _ k) (same-Left w _ k))))
        (same-Left w _ k)
