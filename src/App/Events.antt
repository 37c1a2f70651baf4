-- ===== src/App/Events.antt =====
-- Which entry points of the server a request to a route reaches.
use oauth_lab.Prelude.{String, Option, none, some, List, [], ◌∷◌, ◌++◌, if◌then◌else◌}
use oauth_lab.Flow.{Outcome, ok, raised}
use oauth_lab.Domain.Errors.{Exception}
use oauth_lab.ClientAuth.{ClientCredentials}
use oauth_lab.Token.{TokenRequest}
use oauth_lab.World.{World}
use oauth_lab.World.Env.{Env}
use oauth_lab.Service.Session.{SessionData, verify_session, truthy}
use oauth_lab.System.{
  Server, Event, token, authorization, consent_form, login_form, userinfo, device_authorization,
  device_page, device_form,
}
use oauth_lab.Http.Texts.{lower, starts_with, drop, strip}
use oauth_lab.Rest.Token.{build_token_request, extract_credentials}
use oauth_lab.Web.{is_approval}
use oauth_lab.Web.Consent.{decision_of}
use oauth_lab.Web.Guarded.{found_session, is_genuine}
use oauth_lab.App.{
  Request, Wiring, serve, post_token, post_device_authorization, get_userinfo, get_jwks,
  get_oauth_metadata, get_openid_metadata, get_healthz, get_authorize, get_login, post_login,
  post_consent, get_device, post_device, post_device_consent,
}

-- a request for tokens that can be read
abbrev pub token_events : ClientCredentials → Outcome Exception TokenRequest → List Event
token_events creds (raised e) = []
token_events creds (ok request) = token creds request ∷ []

-- a page for a code, if there is one
abbrev pub page_events : Option String → List Event
page_events none = []
page_events (some user_code) = device_page user_code ∷ []

-- the event for the session, if there is one
abbrev pub session_events : (SessionData → Event) → Option SessionData → List Event
session_events f none = []
session_events f (some s) = f s ∷ []

-- a form with the token of its session
abbrev pub form_events : (SessionData → Event) → Option SessionData → String → List Event
form_events f found csrf_token = if is_genuine found csrf_token then session_events f found else []

abbrev pub bearer_events : Option String → List Event
bearer_events none = []
bearer_events (some header) =
    if starts_with (lower header) "bearer " then userinfo (strip (drop 7 header)) ∷ [] else []

module _ (env : Env) (upper : String → String) where
  -- at most one event for each request
  unfoldable pub events_of : Request → World → List Event
  events_of (post_token form) w = token_events (extract_credentials form) (build_token_request form)
  events_of (post_device_authorization request) w = device_authorization request ∷ []
  events_of (get_userinfo header) w = bearer_events header
  events_of (get_jwks accept) w = []
  events_of get_oauth_metadata w = []
  events_of get_openid_metadata w = []
  events_of get_healthz w = []
  events_of (get_authorize url request session_cookie) w = authorization request session_cookie ∷ []
  events_of (get_login next) w = []
  events_of (post_login username password next) w = login_form username password ∷ []
  events_of (post_consent session_cookie form) w =
      form_events (λ s. consent_form (decision_of s form))
        (found_session (verify_session env session_cookie w).0) form.csrf_token
  events_of (get_device user_code session_cookie) w = page_events (truthy user_code)
  events_of (post_device user_code session_cookie) w =
      page_events (truthy (some (upper (strip user_code))))
  events_of (post_device_consent session_cookie csrf_token user_code decision) w =
      form_events
        (λ s. device_form (record {
          user_code = user_code;
          user_sub = s.user_sub;
          approved = is_approval decision;
        }))
        (found_session (verify_session env session_cookie w).0) csrf_token

module _ (server : Server) (wiring : Wiring) where
  -- the events of requests that are handled one after the other
  unfoldable pub all_events : List Request → World → List Event
  all_events [] w = []
  all_events (request ∷ requests) w =
      events_of server.env wiring.upper request w
      ++ all_events requests (serve server wiring request w).1
