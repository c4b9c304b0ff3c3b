-- ===== src/Handler/Returns/Served.antt =====
-- The middleware as its clients meet it: HTTP requests, with background refreshes and pruning between
-- them, from the state that a Caddyfile is provisioned to.
use swim.Prelude.{
  ℕ, ◌≡◌, refl, sym, subst, Bool, true, false, Option, none, some, Text, text, text_eq, ◌==◌, ◌||◌,
  ◌++◌, has_prefix, Result, ok, err, if◌then◌else◌,
}
use swim.Prelude.Int.{ℤ}
use swim.Caddy.{Dispenser}
use swim.Config.Options.{Options, zero_options, unmarshal_caddyfile}
use swim.Handler.{GithubPreview, Layered, State, unregister_fs, metadata_evict}
use swim.Handler.Key.{extract_key}
use swim.Handler.Resolve.{full_resolve, background_refresh, refreshed}
use swim.Handler.Prune.{forget, prune_once}
use swim.Handler.Pruned.{prune_once_lem}
use swim.Handler.Api.{Decode, ApiResponse}
use swim.Handler.Api.Laws.{Left, handle_api-Left}
use swim.Handler.Serve.{
  Request, Served, api_answer, not_found, debug_page, next_with_fs, answered, resolved_or_not_found,
  serve_host, serve_http,
}
use swim.Cache.Artifact.{new_artifact_cache}
use swim.Handler.Provision.{Outside, Provisioned, provision, with_defaults, resolve_options}
use swim.Handler.Provision.Limits.{caddyfile-Limited, provision-first}
use swim.Handler.Outcomes.{Holds}
use swim.Handler.Aligned.{Has}
use swim.Handler.Registered.{Registered, Keeps}
use swim.Handler.Registered.Resolved.{Found, resolve_and_register-Keeps}
use swim.Handler.Registered.Reach.{refresh, pruned, Step-Registered, started-Registered}
use swim.Handler.Returns.{Returns, resolve_and_register-Returns, full_resolve-Returns}
use swim.Handler.Bounded.{Bounded, artifact_evict-Bounded}
use swim.Handler.Returns.Api.{Answers, handle_api-Answers}

module _ {S Body Fs Handle : Type 0} (g : GithubPreview S Body Fs Handle) (options : Options)
    (decode : Decode) where
  -- The limit of the artifact cache is positive, and each key with metadata has a registered file
  -- system.
  abbrev pub Sound : State S Fs Handle → Type 0
  Sound w = Bounded g w × Registered g w

  -- The file system that the next handler is to serve from is registered.
  abbrev pub Backed : Served → State S Fs Handle → Type 0
  Backed (api_answer a) w = Unit
  Backed (not_found host e) w = Unit
  Backed (debug_page d) w = Unit
  Backed (next_with_fs name) w = Has name w.file_systems

  -- There is an answer, and the state with it is sound.
  unfoldable pub Answered : Option (State S Fs Handle × Result Text Served) → Type 0
  Answered none = ⊥
  Answered (some (w, ok a)) = Sound w × Backed a w
  Answered (some (w, err e)) = ⊥

  api-Answered :
      (o : Option (State S Fs Handle × ApiResponse))
      → Answers g decode options.api_key options.max_artifacts o
      → Left g decode options.api_key options.max_artifacts o
      → Answered (answered g options decode o)
  unfolding Answers Left Answered
  api-Answered none k l = k
  api-Answered (some (w, a)) k l = ((k, l), tt)

  resolved-Answered :
      (host key : Text) (o : Option (State S Fs Handle × Result Text Text))
      → Returns g o
      → Keeps g (Found g key) o
      → Answered (resolved_or_not_found g options decode host o)
  unfolding Holds Keeps Answered swim.Handler.caught
  resolved-Answered host key none k l = k
  resolved-Answered host key (some (w, ok name)) k (l, (is, has)) =
      ((k, l), subst (λ n. Has n w.file_systems) (sym is) has)
  resolved-Answered host key (some (w, err e)) k l = ((k, l), tt)

  if-Answered :
      (b : Bool) (m n : Option (State S Fs Handle × Result Text Served))
      → Answered m
      → Answered n
      → Answered (if b then m else n)
  if-Answered true m n km kn = km
  if-Answered false m n km kn = kn

  now_Answered :
      (a : Served) (w : State S Fs Handle) → Sound w → Backed a w → Answered (some (w, ok a))
  unfolding Answered
  now_Answered a w k b = (k, b)

  host-Answered :
      (o : Option Text) (r : Request) (w : State S Fs Handle)
      → Sound w
      → Answered (serve_host g options decode o r w)
  host-Answered none r w k = now_Answered _ w k tt
  host-Answered (some key) r w k =
      if-Answered (r.call.path == text "/.well-known/deployment-debug") _ _
        (now_Answered (debug_page _) w k tt)
        (resolved-Answered r.host key _ (resolve_and_register-Returns g key w k.0)
          (resolve_and_register-Keeps g key w k.1))

  serve_http-Answered :
      (r : Request) (w : State S Fs Handle) → Sound w → Answered (serve_http g options decode r w)
  unfolding serve_http
  serve_http-Answered r w k =
      if-Answered (has_prefix r.call.path (g.api_path ++ text "/") || (r.call.path == g.api_path)) _
        _
        (api-Answered _
          (handle_api-Answers g decode options.api_key options.max_artifacts r.call w k.0)
          (handle_api-Left g decode options.api_key options.max_artifacts r.call w k.1))
        (host-Answered (extract_key g.find_submatch r.host) r w k)

  -- An HTTP request, whoever it is for, a refresh in the background, and a turn of the pruner, each
  -- whole. `w ⟶ v`: one of them takes the state `w` to `v`.
  pub data Turn : State S Fs Handle → State S Fs Handle → Type 0 where
    http :
        (r : Request) (w v : State S Fs Handle) (a : Result Text Served)
        → serve_http g options decode r w ≡ some (v, a)
        → Turn w v
    in_background :
        (key : Text) (w v : State S Fs Handle) → background_refresh g key w ≡ some v → Turn w v
    pruner : (w : State S Fs Handle) → Turn w (prune_once g w)

  pub data Turns : State S Fs Handle → State S Fs Handle → Type 0 where
    none_yet : (w : State S Fs Handle) → Turns w w
    turn : (u v w : State S Fs Handle) → Turns u v → Turn v w → Turns u w

  Answered-Sound :
      (o : Option (State S Fs Handle × Result Text Served)) (v : State S Fs Handle)
      (a : Result Text Served)
      → Answered o
      → o ≡ some (v, a)
      → Sound v
  unfolding Answered
  Answered-Sound o v (ok a) k e = (subst Answered e k).0
  Answered-Sound o v (err x) k e = absurd (subst Answered e k)

  abbrev IfAny : Option (State S Fs Handle) → Type 0
  IfAny none = Unit
  IfAny (some w) = Bounded g w

  refreshed-Bounded :
      (key : Text) (o : Option (State S Fs Handle × Result Text (Layered Fs)))
      → Returns g o
      → IfAny (refreshed g key o)
  unfolding Holds
  refreshed-Bounded key none k = tt
  refreshed-Bounded key (some (v, ok a)) k = k
  refreshed-Bounded key (some (v, err x)) k = k

  refresh-Bounded :
      (key : Text) (w v : State S Fs Handle)
      → Bounded g w
      → background_refresh g key w ≡ some v
      → Bounded g v
  unfolding background_refresh
  refresh-Bounded key w v k e =
      subst IfAny e (refreshed-Bounded key (full_resolve g key w) (full_resolve-Returns g key w k))

  forget-Bounded : (key : Text) (w : State S Fs Handle) → Bounded g w → Bounded g (forget g key w)
  unfolding forget unregister_fs metadata_evict
  forget-Bounded key w k = k

  Turn-Sound : (w v : State S Fs Handle) → Turn w v → Sound w → Sound v
  Turn-Sound w v (http r _ _ a e) k = Answered-Sound _ v a (serve_http-Answered r w k) e
  Turn-Sound w v (in_background key _ _ e) (b, n) =
      (refresh-Bounded key w v b e, Step-Registered g w v (refresh key w v e) n)
  Turn-Sound w _ (pruner _) (b, n) = (
    prune_once_lem g (Bounded g) forget-Bounded (artifact_evict-Bounded g) (λ s v k. k) w b,
    Step-Registered g w (prune_once g w) (pruned w) n,
  )

  Turns-Sound : (w v : State S Fs Handle) → Turns w v → Sound w → Sound v
  Turns-Sound w _ (none_yet _) k = k
  Turns-Sound u w (turn _ v _ path s) k = Turn-Sound v w s (Turns-Sound u v path k)

  Answered-answer :
      (o : Option (State S Fs Handle × Result Text Served))
      → Answered o
      → (v : State S Fs Handle) × (a : Served) × (o ≡ some (v, ok a)) × Backed a v
  unfolding Answered
  Answered-answer none k = elim k [ ]
  Answered-answer (some (v, ok a)) (k, b) = (v, a, refl, b)
  Answered-answer (some (v, err e)) k = elim k [ ]

-- Behind a Caddyfile that is read and provisioned without an error, where the pruner's ticker does not
-- panic at its start, as it does at a negative interval, and any HTTP requests, those of the management
-- API among them, background refreshes and turns of the pruner, each whole and one after the other,
-- each request is answered: no loop goes on for ever and no pull request that is missing stops it,
-- whatever GitHub answers, and where the next handler is called, a file system is registered under the
-- name that it is given.
pub caddyfile-Answered :
    {S Body Fs Handle Template D : Type 0} (o : Outside S Body Fs Handle Template)
    (parse_duration : Text → Option ℤ) (dispenser : Dispenser D) (fuel : ℕ) (d e : D)
    (options : Options) (s : S) (p : Provisioned S Body Fs Handle Template) (decode : Decode)
    (w : State S Fs Handle) (r : Request)
    → unmarshal_caddyfile parse_duration dispenser fuel zero_options d ≡ some (e, ok options)
    → provision o options s ≡ ok (some p)
    → Turns p.preview p.options decode p.state w
    → (v : State S Fs Handle) × (a : Served) × (serve_http p.preview p.options decode r w
        ≡ some (v, ok a))
      × Backed p.preview p.options decode a v
caddyfile-Answered o parse_duration dispenser fuel d e options s p decode w r read given path =
    let bounded = caddyfile-Limited o parse_duration dispenser fuel d e options s p read given in
    let g = with_defaults (resolve_options o options) in
    let registered =
      subst (Registered p.preview) (sym (provision-first o options s p given))
        (started-Registered p.preview g.metadata_ttl (new_artifact_cache g.max_artifacts) s) in
    Answered-answer p.preview p.options decode _ (
      serve_http-Answered p.preview p.options decode r w
        (Turns-Sound p.preview p.options decode p.state w path (bounded, registered)))
