-- ===== src/Handler/Serve.antt =====
-- `ServeHTTP`: what becomes of a request.
use swim.Prelude.{
  Option, none, some, ◌++◌, ◌||◌, Text, text, text_eq, ◌==◌, has_prefix, Result, ok, if◌then◌else◌,
}
use swim.Config.Options.{Options}
use swim.Handler.{GithubPreview, State, Call, done, caught}
use swim.Handler.Api.{ApiRequest, ApiResponse, Decode, handle_api}
use swim.Handler.Debug.{DebugResponse, handle_debug}
use swim.Handler.Key.{extract_key}
use swim.Handler.Resolve.{resolve_and_register}

-- `call` is what the management API reads of a request.
pub record Request : Type 0 where
  pub host : Text
  pub call : ApiRequest

-- An answer of the management API, the page of an error for a host, the debug page, or what the next
-- handler answers with the file system of a name.
pub data Served : Type 0 where
  api_answer : ApiResponse → Served
  not_found : Text → Text → Served
  debug_page : DebugResponse → Served
  next_with_fs : Text → Served

module _ {S Body Fs Handle : Type 0} (g : GithubPreview S Body Fs Handle) (options : Options)
    (decode : Decode) where
  abbrev pub answered :
      Option (State S Fs Handle × ApiResponse) → Option (State S Fs Handle × Result Text Served)
  answered none = none
  answered (some (w, a)) = some (w, ok (api_answer a))

  abbrev pub resolved_or_not_found :
      Text
      → Option (State S Fs Handle × Result Text Text)
      → Option (State S Fs Handle × Result Text Served)
  resolved_or_not_found host =
      caught (λ fs_name. done (next_with_fs fs_name)) (λ e. done (not_found host e))

  abbrev pub serve_key : Text → Request → Call (State S Fs Handle) Served
  serve_key key r w =
      if r.call.path == text "/.well-known/deployment-debug"
      then some (w, ok (debug_page (handle_debug g options key w)))
      else resolved_or_not_found r.host (resolve_and_register g key w)

  abbrev pub serve_host : Option Text → Request → Call (State S Fs Handle) Served
  serve_host none r = done (not_found r.host (text "no matching preview found in hostname"))
  serve_host (some key) r = serve_key key r

  unfoldable pub serve_http : Request → Call (State S Fs Handle) Served
  serve_http r w =
      if has_prefix r.call.path (g.api_path ++ text "/") || (r.call.path == g.api_path)
      then answered (handle_api g decode options.api_key options.max_artifacts r.call w)
      else serve_host (extract_key g.find_submatch r.host) r w
