-- ===== src/App/ReadOnly.antt =====
-- The requests over HTTP that write to no repository.
use oauth_lab.Prelude.{
  String, Option, none, some, [], ◌∷◌, Bool, true, false, not, ◌≡◌, sym, subst, arith,
  if◌then◌else◌,
}
use oauth_lab.Memory.Registry
use oauth_lab.Memory.DeviceCodes
use oauth_lab.World.{World, services}
use oauth_lab.World.Frame.{SameStores}
use oauth_lab.World.Issuers.{now, token_urlsafe}
use oauth_lab.Jwt.{verify_access_token, decode}
use oauth_lab.Service.Session.{SessionData, login, user_info, verify_session, truthy}
use oauth_lab.Service.Device.{lookup_device_code}
use oauth_lab.Service.Consent.Issued.{consent-denied}
use oauth_lab.Service.Authorize.Redirects.{authorize-reads}
use oauth_lab.System.{Server, consent_form, handle, run, userinfo}
use oauth_lab.Http.Texts.{lower, starts_with, drop, strip}
use oauth_lab.Web.{is_approval}
use oauth_lab.Web.Consent.{ConsentForm, decision_of}
use oauth_lab.Web.Guarded.{found_session, is_genuine}
use oauth_lab.App.{
  Request, Wiring, serve, post_token, post_device_authorization, get_userinfo, get_jwks,
  get_oauth_metadata, get_openid_metadata, get_healthz, get_authorize, get_login, post_login,
  post_consent, get_device, post_device, post_device_consent,
}
use oauth_lab.App.Events.{events_of, bearer_events, page_events, form_events}
use oauth_lab.App.Runs.{serve-run}

-- a request that only reads: each `GET`, the login, the search for a user code, and a consent form
-- that does not approve
abbrev pub is_read_only : Request → Bool
is_read_only (post_token form) = false
is_read_only (post_device_authorization request) = false
is_read_only (get_userinfo header) = true
is_read_only (get_jwks accept) = true
is_read_only get_oauth_metadata = true
is_read_only get_openid_metadata = true
is_read_only get_healthz = true
is_read_only (get_authorize url request session_cookie) = true
is_read_only (get_login next) = true
is_read_only (post_login username password next) = true
is_read_only (post_consent session_cookie form) = not (is_approval form.decision)
is_read_only (get_device user_code session_cookie) = true
is_read_only (post_device user_code session_cookie) = true
is_read_only (post_device_consent session_cookie csrf_token user_code decision) = false

SameStores-refl : (w : World) → SameStores w w
SameStores-refl w = ground arith

module _ (server : Server) where
  open server use {env}

  login-SameStores :
      (username password : String) (w : World) → SameStores w (login env username password w).1
  unfolding services login Registry.find_by_username token_urlsafe
  login-SameStores username password w = ground arith

  user_info-SameStores : (token : String) (w : World) → SameStores w (user_info env token w).1
  unfolding services user_info verify_access_token decode Registry.find_by_sub
  user_info-SameStores token w = ground arith

  lookup-SameStores :
      (user_code : String) (w : World) → SameStores w (lookup_device_code env user_code w).1
  unfolding services lookup_device_code DeviceCodes.find_by_user_code now
  lookup-SameStores user_code w = ground arith

  if-SameStores :
      (b : Bool) (token : String) (w : World)
      → SameStores w (run server (if b then userinfo token ∷ [] else []) w)
  unfolding run handle
  if-SameStores true token w = user_info-SameStores token w
  if-SameStores false token w = SameStores-refl w

  bearer-SameStores :
      (header : Option String) (w : World) → SameStores w (run server (bearer_events header) w)
  unfolding run handle
  bearer-SameStores none w = SameStores-refl w
  bearer-SameStores (some header) w =
      if-SameStores (starts_with (lower header) "bearer ") (strip (drop 7 header)) w

  page-SameStores :
      (user_code : Option String) (w : World) → SameStores w (run server (page_events user_code) w)
  unfolding run handle
  page-SameStores none w = SameStores-refl w
  page-SameStores (some user_code) w = lookup-SameStores user_code w

  unless-SameStores :
      (b : Bool) (form : ConsentForm) (s : SessionData) (w : World)
      → not (is_approval form.decision) ≡ true
      → SameStores w (run server (if b then consent_form (decision_of s form) ∷ [] else []) w)
  unfolding run handle decision_of
  unless-SameStores true form s w h =
      subst (SameStores w) (sym (consent-denied env (decision_of s form) w (ground arith)))
        (SameStores-refl w)
  unless-SameStores false form s w h = SameStores-refl w

  -- a form that denies, for whichever session
  denied-SameStores :
      (form : ConsentForm) (found : Option SessionData) (w : World)
      → not (is_approval form.decision) ≡ true
      → SameStores w (
          run server (form_events (λ s. consent_form (decision_of s form)) found form.csrf_token) w)
  unfolding run handle decision_of
  denied-SameStores form none w h = SameStores-refl w
  denied-SameStores form (some s) w h =
      unless-SameStores (is_genuine (some s) form.csrf_token) form s w h

  module _ (wiring : Wiring) where
    run-SameStores :
        (request : Request) (w : World)
        → is_read_only request ≡ true
        → SameStores w (run server (events_of env wiring.upper request w) w)
    unfolding events_of run handle
    run-SameStores (post_token form) w h = cc
    run-SameStores (post_device_authorization request) w h = cc
    run-SameStores (get_userinfo header) w h = bearer-SameStores header w
    run-SameStores (get_jwks accept) w h = SameStores-refl w
    run-SameStores get_oauth_metadata w h = SameStores-refl w
    run-SameStores get_openid_metadata w h = SameStores-refl w
    run-SameStores get_healthz w h = SameStores-refl w
    run-SameStores (get_authorize url request session_cookie) w h =
        subst (SameStores w) (sym (authorize-reads env request session_cookie w))
          (SameStores-refl w)
    run-SameStores (get_login next) w h = SameStores-refl w
    run-SameStores (post_login username password next) w h = login-SameStores username password w
    run-SameStores (post_consent session_cookie form) w h =
        denied-SameStores form (found_session (verify_session env session_cookie w).0) w h
    run-SameStores (get_device user_code session_cookie) w h = page-SameStores (truthy user_code) w
    run-SameStores (post_device user_code session_cookie) w h =
        page-SameStores (truthy (some (wiring.upper (strip user_code)))) w
    run-SameStores (post_device_consent session_cookie csrf_token user_code decision) w h = cc

    -- Every `GET` request, the login, the search for a user code and a consent form that does not
    -- approve leave all repositories as they were, whatever the answer is: at most the clock and the
    -- random source are read.
    pub serve-SameStores :
        (request : Request) (w : World)
        → is_read_only request ≡ true
        → SameStores w (serve server wiring request w).1
    serve-SameStores request w h =
        subst (SameStores w) (sym (serve-run server wiring request w)) (run-SameStores request w h)
