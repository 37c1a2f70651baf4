-- ===== src/Web/Device.antt =====
-- web/device_controller.py: `GET` and `POST /device`, and `POST /device/consent`
use Prim.Native.String.{◌++◌}
use oauth_lab.Prelude.{String, Option, none, some, [], ◌∷◌, if◌then◌else◌}
use oauth_lab.Flow.{pure, ◌>>=◌, ◌>>◌}
use oauth_lab.World.{Service}
use oauth_lab.World.Env.{Env}
use oauth_lab.Service.Session.{SessionData, verify_session, truthy}
use oauth_lab.Service.Device.{DeviceCodeView, lookup_device_code, device_consent}
use oauth_lab.Http.{Response, string, strings, null, html_response, redirect_response}
use oauth_lab.Http.Texts.{strip}
use oauth_lab.Http.Url.{quote_plus}
use oauth_lab.Web.{SessionOrResponse, session, instead, is_approval, require_session_with_csrf}

abbrev pub entry_page : Response
entry_page = html_response 200 "device_entry.html" (("user_code", null) ∷ ("error", null) ∷ [])

abbrev pub unknown_page : String → Response
unknown_page user_code = html_response 404 "device_entry.html" (
    ("user_code", string user_code)
    ∷ ("error", string "Unknown code. Check your device's screen and try again.")
    ∷ [])

abbrev pub error_page : String → String → Response
error_page code description =
    html_response 400 "error.html"
      (("error_code", string code) ∷ ("description", string description) ∷ [])

-- the page for a code that can be decided, with the session or without
unfoldable pub page_for_session : DeviceCodeView → Option SessionData → Response
unfolding quote_plus
page_for_session view none =
    redirect_response
      ("/login?next=" ++ quote_plus ("/device?user_code=" ++ quote_plus view.user_code))
page_for_session view (some s) = html_response 200 "device_consent.html" (
    ("user_code", string view.user_code)
    ∷ ("client_id", string view.client_id)
    ∷ ("requested_scopes", strings view.requested_scopes)
    ∷ ("csrf_token", string s.csrf_token)
    ∷ [])

abbrev pub success_page : Response
success_page = html_response 200 "success.html" []

module _ (env : Env) where
  abbrev pub render_view : Option String → String → Option DeviceCodeView → Service Response
  render_view session_cookie user_code none = pure (unknown_page user_code)
  render_view session_cookie user_code (some view) =
      if view.expired
      then pure
          (error_page "expired_token" "This device code has expired. Ask the device to start over.")
      else if view.already_decided
      then pure
          (error_page "already_decided" "This device code has already been approved or denied.")
      else do found ← verify_session env session_cookie; pure (page_for_session view found)

  abbrev pub render_code : Option String → Option String → Service Response
  render_code session_cookie none = pure entry_page
  render_code session_cookie (some user_code) = do
    view ← lookup_device_code env user_code
    render_view session_cookie user_code view

  -- `_render_device_page`, which both requests call without an error
  unfoldable pub render_device_page : Option String → Option String → Service Response
  render_device_page user_code session_cookie = render_code session_cookie (truthy user_code)

  unfoldable pub device_get : Option String → Option String → Service Response
  device_get user_code session_cookie = render_device_page user_code session_cookie

  -- `upper` is Python's `str.upper`
  unfoldable pub device_post : (String → String) → String → Option String → Service Response
  device_post upper user_code session_cookie =
      render_device_page (some (upper (strip user_code))) session_cookie

  abbrev pub device_consent_for : String → String → SessionOrResponse → Service Response
  device_consent_for user_code decision (instead response) = pure response
  device_consent_for user_code decision (session s) = do
    device_consent env
        (record { user_code = user_code; user_sub = s.user_sub; approved = is_approval decision })
    pure success_page

  -- the cookie, then the fields `csrf_token`, `user_code` and `decision` of the form
  unfoldable pub device_consent_submit : Option String → String → String → String → Service Response
  device_consent_submit session_cookie csrf_token user_code decision = do
    guarded ← require_session_with_csrf env session_cookie csrf_token
    device_consent_for user_code decision guarded
