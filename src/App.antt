-- ===== src/App.antt =====
-- The routes of oauth_lab/main.py and their answers, with the exception handler in front.
pub mod Events
pub mod Handlers
pub mod Runs
pub mod SingleUse
pub mod ReadOnly
use oauth_lab.Prelude.{ℕ, String, Option, List, [], ◌∷◌, Bool, true, false}
use oauth_lab.Flow.{pure, ◌>>=◌}
use oauth_lab.Dict.{Dict}
use oauth_lab.Domain.Errors.{Exception}
use oauth_lab.Domain.Client.{GrantType}
use oauth_lab.ClientAuth.{Authenticator}
use oauth_lab.ClientAuth.Basic.{Decoder}
use oauth_lab.World.{World, Service}
use oauth_lab.System.{Server}
use oauth_lab.Service.Authorize.{AuthorizeRequest}
use oauth_lab.Service.Device.{DeviceAuthorizationRequest}
use oauth_lab.Http.{Response, Value, string, json_response, Render, send}
use oauth_lab.Http.Texts.{starts_with}
use oauth_lab.Rest.Token.{TokenForm, token}
use oauth_lab.Rest.UserInfo.{userinfo}
use oauth_lab.Rest.Device.{device_authorization}
use oauth_lab.Rest.Discovery.{ServerMetadata, oauth_metadata, openid_metadata, jwks_document}
use oauth_lab.Web.Login.{login_form, login_submit}
use oauth_lab.Web.Authorize.{authorize_endpoint}
use oauth_lab.Web.Consent.{ConsentForm, consent_submit}
use oauth_lab.Web.Device.{device_get, device_post, device_consent_submit}

-- A request to a route, with the fields that its handler is called with.
pub data Request : Type 0 where
  post_token : TokenForm → Request
  post_device_authorization : DeviceAuthorizationRequest → Request
  -- the `Authorization` header
  get_userinfo : Option String → Request
  -- the `Accept` header
  get_jwks : Option String → Request
  get_oauth_metadata get_openid_metadata get_healthz : Request
  -- the URL, the query, and the session cookie
  get_authorize : String → AuthorizeRequest → Option String → Request
  -- `next`
  get_login : Option String → Request
  -- username, password and `next`
  post_login : String → String → String → Request
  -- the session cookie and the form
  post_consent : Option String → ConsentForm → Request
  -- the user code and the session cookie
  get_device : Option String → Option String → Request
  post_device : String → Option String → Request
  -- the session cookie, the CSRF token, the user code and the decision
  post_device_consent : Option String → String → String → String → Request

-- What `create_app` and the container hand to the routers, beside the services.
pub record Wiring : Type 0 where
  pub scopes_supported : List String
  pub session_ttl_seconds : ℕ
  pub keys : Dict Value
  pub render : Render
  pub upper : String → String
  pub unhandled : Exception → Response

module _ (server : Server) (wiring : Wiring) where
  open server use {env, decoder, authenticators, grants}

  abbrev pub metadata : ServerMetadata
  metadata = record {
    issuer = env.issuer;
    grants = grants;
    client_auth = authenticators;
    scopes_supported = wiring.scopes_supported;
    id_token_signing_alg = env.algorithm;
  }

  -- the handler of the route
  unfoldable pub handler : Request → Service Response
  handler (post_token form) = token env decoder authenticators grants form
  handler (post_device_authorization request) = device_authorization env request
  handler (get_userinfo authorization) = userinfo env authorization
  handler (get_jwks accept) = pure (jwks_document wiring.keys accept)
  handler get_oauth_metadata = pure (json_response 200 [] (oauth_metadata metadata))
  handler get_openid_metadata = pure (json_response 200 [] (openid_metadata metadata))
  handler get_healthz = pure (json_response 200 [] (("status", string "ok") ∷ []))
  handler (get_authorize url request session_cookie) =
      authorize_endpoint env wiring.render url request session_cookie
  handler (get_login next) = pure (login_form next)
  handler (post_login username password next) =
      login_submit env (starts_with env.issuer "https") wiring.session_ttl_seconds username password
        next
  handler (post_consent session_cookie form) = consent_submit env session_cookie form
  handler (get_device user_code session_cookie) = device_get env user_code session_cookie
  handler (post_device user_code session_cookie) =
      device_post env wiring.upper user_code session_cookie
  handler (post_device_consent session_cookie csrf_token user_code decision) =
      device_consent_submit env session_cookie csrf_token user_code decision

  -- the answer of the application, and the world after it
  unfoldable pub serve : Request → World → Response × World
  unfolding handler send
  serve request w =
      (send wiring.render wiring.unhandled (handler request w).0, (handler request w).1)

  -- the world after requests that are handled one after the other
  unfoldable pub serve_all : List Request → World → World
  serve_all [] w = w
  serve_all (request ∷ requests) w = serve_all requests (serve request w).1
