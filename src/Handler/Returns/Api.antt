-- ===== src/Handler/Returns/Api.antt =====
-- Each call of the management API is answered.
use swim.Prelude.{
  Bool, true, false, Option, none, some, Text, text_eq, Result, ok, err, if◌then◌else◌,
}
use swim.Prelude.Int.{ℤ}
use swim.Handler.{GithubPreview, Layered, State, evict_key}
use swim.Handler.Api.{
  ApiRequest, RefreshRequest, EvictRequest, Decode, ApiResponse, request_key, valid,
  evict_request_key, evict_valid, authenticate_api, resolved, refresh_decoded, evict_decoded,
  handle_refresh, handle_evict, handle_status, dispatch, handle_api,
}
use swim.Handler.Outcomes.{Holds}
use swim.Handler.Bounded.{Bounded, evict_key-Bounded}
use swim.Handler.Returns.{Returns, full_resolve-Returns}

module _ {S Body Fs Handle : Type 0} (g : GithubPreview S Body Fs Handle) (decode : Decode)
    (api_key : Text) (max_artifacts : ℤ) where
  unfoldable pub Answers : Option (State S Fs Handle × ApiResponse) → Type 0
  Answers none = ⊥
  Answers (some (w, r)) = Bounded g w

  either_lem :
      (b : Bool) (m n : Option (State S Fs Handle × ApiResponse))
      → Answers m
      → Answers n
      → Answers (if b then m else n)
  either_lem true m n p q = p
  either_lem false m n p q = q

  resolved-Answers :
      (r : RefreshRequest) (o : Option (State S Fs Handle × Result Text (Layered Fs)))
      → Returns g o
      → Answers (resolved g decode api_key max_artifacts r o)
  unfolding Answers Holds
  resolved-Answers r none k = k
  resolved-Answers r (some (w, ok fs)) k = k
  resolved-Answers r (some (w, err e)) k = k

  at_once : (w : State S Fs Handle) (r : ApiResponse) → Bounded g w → Answers (some (w, r))
  unfolding Answers
  at_once w r k = k

  refresh-Answers :
      (o : Option RefreshRequest) (w : State S Fs Handle)
      → Bounded g w
      → Answers (refresh_decoded g decode api_key max_artifacts o w)
  refresh-Answers none w k = at_once w _ k
  refresh-Answers (some r) w k =
      either_lem (valid r) _ _ (resolved-Answers r _ (full_resolve-Returns g (request_key r) w k))
        (at_once w _ k)

  evict-Answers :
      (o : Option EvictRequest) (w : State S Fs Handle)
      → Bounded g w
      → Answers (evict_decoded g decode api_key max_artifacts o w)
  evict-Answers none w k = at_once w _ k
  evict-Answers (some r) w k =
      either_lem (evict_valid r) _ _
        (at_once (evict_key g (evict_request_key r) w) _
          (evict_key-Bounded g (evict_request_key r) w k))
        (at_once w _ k)

  pub handle_api-Answers :
      (r : ApiRequest) (w : State S Fs Handle)
      → Bounded g w
      → Answers (handle_api g decode api_key max_artifacts r w)
  unfolding handle_api dispatch handle_refresh handle_evict handle_status
  handle_api-Answers r w k =
      either_lem (authenticate_api api_key r.provided_key) _ _
        (either_lem _ _ _ (refresh-Answers (decode.refresh_body r.body) w k) (
          either_lem _ _ _ (evict-Answers (decode.evict_body r.body) w k)
            (either_lem _ _ _ (at_once w _ k) (at_once w _ k))))
        (at_once w _ k)
