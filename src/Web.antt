-- ===== src/Web.antt =====
-- The browser-facing controllers (oauth_lab/adapter/inbound/web), with the guard that the forms which
-- change state share (web/session_guard.py). A page is the name of its template and the arguments.
pub mod Login
pub mod Authorize
pub mod Consent
pub mod Device
pub mod Guarded
use oauth_lab.Prelude.{String, Option, none, some, Bool, not, ◌&&◌, ◌==◌, if◌then◌else◌}
use oauth_lab.Flow.{pure, raise, lift, ◌>>=◌}
use oauth_lab.Domain.Errors.{Exception, failure, invalid_request, type_error}
use oauth_lab.World.{Service}
use oauth_lab.World.Env.{Env}
use oauth_lab.Service.Session.{SessionData, verify_session}
use oauth_lab.Http.{Response, redirect_response}
use oauth_lab.Prelude.{is_ascii}

-- What `require_session_with_csrf` returns.
pub data SessionOrResponse : Type 0 where
  session : SessionData → SessionOrResponse
  instead : Response → SessionOrResponse

-- `secrets.compare_digest`, which raises on a text that is not ASCII
abbrev pub compare_digest : String → String → Service Bool
compare_digest a b = if not (is_ascii a && is_ascii b) then raise type_error else pure (a == b)

-- `decision == "approve"`
abbrev pub is_approval : String → Bool
is_approval decision = decision == "approve"

abbrev pub check_csrf : String → Option SessionData → Service SessionOrResponse
check_csrf csrf_token none = pure (instead (redirect_response "/login"))
check_csrf csrf_token (some s) = do
  same ← compare_digest csrf_token s.csrf_token
  if not same then raise (failure invalid_request "CSRF token mismatch") else pure (session s)

module _ (env : Env) where
  unfoldable pub require_session_with_csrf : Option String → String → Service SessionOrResponse
  require_session_with_csrf session_cookie csrf_token = do
    found ← verify_session env session_cookie
    check_csrf csrf_token found
