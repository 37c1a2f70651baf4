-- ===== src/Service/Authorize.antt =====
-- application/service/authorize_service.py, with the types of
-- application/port/inbound/authorize_use_case.py
pub mod Redirects
use Prim.Native.String.{◌++◌}
use oauth_lab.Prelude.{String, Option, none, some, not, ◌&&◌, ◌==◌, contains, if◌then◌else◌}
use oauth_lab.Flow.{ok, raised, pure, lift, ◌>>=◌}
use oauth_lab.Domain.Errors.{Message, text, str_of, value_error}
use oauth_lab.Domain.Scope.{ScopeSet, parse, is_empty, is_subset_of}
use oauth_lab.Domain.Pkce.{PkceChallenge, pkce_challenge}
use oauth_lab.Domain.Client.{Client, User, client_id, supports_grant, authorization_code}
use oauth_lab.Memory.Registry
use oauth_lab.World.{Service, on_clients, on_users}
use oauth_lab.World.Env.{Env}
use oauth_lab.Service.Session.{SessionData, verify_session, truthy}

pub record AuthorizeRequest : Type 0 where
  pub response_type : Option String
  pub client_id : Option String
  pub redirect_uri : Option String
  pub scope : Option String
  pub state : Option String
  pub code_challenge : Option String
  pub code_challenge_method : Option String

pub record ConsentPage : Type 0 where
  pub client : Client
  pub user : User
  pub requested_scope : ScopeSet
  pub redirect_uri : String
  pub state : Option String
  pub code_challenge : PkceChallenge
  pub csrf_token : String

pub data AuthorizeResult : Type 0 where
  authentication_required : AuthorizeResult
  consent_required : ConsentPage → AuthorizeResult
  -- not redirected: error code and description
  request_error : String → Message → AuthorizeResult
  -- redirected: redirect_uri, error, description, state
  response_error : String → String → Message → Option String → AuthorizeResult

-- What a valid request has settled before the session is looked at.
pub record Settled : Type 0 where
  pub challenge : PkceChallenge
  pub requested_scope : ScopeSet

pub data Validation : Type 0 where
  refused : String → Message → Validation
  settled : Settled → Validation

abbrev or_s256 : Option String → String
or_s256 none = "S256"
or_s256 (some m) = m

-- steps 5 and 6, once the challenge is known
unfoldable pub validate_scope : Client → Option String → PkceChallenge → Validation
validate_scope client scope challenge = elim (parse scope) [
  | raised (value_error v) ↦ refused "invalid_scope" (str_of v)
  | raised _ ↦ refused "invalid_scope" (text "")
  | ok requested ↦
      if not (is_empty requested) && not (is_subset_of requested client.allowed_scopes)
      then refused "invalid_scope"
          (text "requested scope contains values not allowed for this client")
      else if not (supports_grant client authorization_code)
      then refused "unauthorized_client"
          (text "client is not allowed to use authorization_code grant")
      else settled (record {
        challenge = challenge;
        requested_scope = if is_empty requested then client.allowed_scopes else requested;
      })
]

-- steps 3 to 6: their errors are redirected
unfoldable pub validate_request : Client → AuthorizeRequest → Validation
validate_request client request = elim request.response_type [
  | none ↦
      refused "unsupported_response_type" (text "only response_type=code is supported (OAuth 2.1)")
  | some response_type ↦
      if not (response_type == "code")
      then refused "unsupported_response_type"
          (text "only response_type=code is supported (OAuth 2.1)")
      else elim (truthy request.code_challenge) [
        | none ↦ refused "invalid_request" (text "code_challenge is required (PKCE mandatory)")
        | some challenge ↦
            elim (pkce_challenge challenge (or_s256 (truthy request.code_challenge_method))) [
              | raised (value_error v) ↦ refused "invalid_request" (str_of v)
              | raised _ ↦ refused "invalid_request" (text "")
              | ok c ↦ validate_scope client request.scope c
            ]
      ]
]

module _ (env : Env) where
  abbrev pub page_for :
      Client → AuthorizeRequest → String → Settled → SessionData → Option User → AuthorizeResult
  page_for client request redirect_uri s session none = authentication_required
  page_for client request redirect_uri s session (some user) = consent_required (record {
    client = client;
    user = user;
    requested_scope = s.requested_scope;
    redirect_uri = redirect_uri;
    state = request.state;
    code_challenge = s.challenge;
    csrf_token = session.csrf_token;
  })

  abbrev pub for_session :
      Client → AuthorizeRequest → String → Settled → Option SessionData → Service AuthorizeResult
  for_session client request redirect_uri s none = pure authentication_required
  for_session client request redirect_uri s (some session) = do
    found ← on_users (Registry.find_by_sub session.user_sub)
    pure (page_for client request redirect_uri s session found)

  -- step 7
  unfoldable pub ask_user :
      Client → AuthorizeRequest → String → Settled → Option String → Service AuthorizeResult
  ask_user client request redirect_uri s session_token = do
    session ← verify_session env session_token
    for_session client request redirect_uri s session

  -- what the outcome of steps 3 to 6 leads to
  abbrev pub for_validation :
      Client → AuthorizeRequest → String → Option String → Validation → Service AuthorizeResult
  for_validation client request redirect_uri session_token (refused error description) =
      pure (response_error redirect_uri error description request.state)
  for_validation client request redirect_uri session_token (settled s) =
      ask_user client request redirect_uri s session_token

  -- step 2: before it, no error is redirected
  abbrev pub for_redirect_uri :
      Client → AuthorizeRequest → Option String → Option String → Service AuthorizeResult
  for_redirect_uri client request session_token none =
      pure (request_error "invalid_request" (text "redirect_uri is required"))
  for_redirect_uri client request session_token (some redirect_uri) =
      if not (contains client.redirect_uris redirect_uri)
      then pure (
          request_error "invalid_request"
            (text "redirect_uri does not match any registered URI for this client"))
      else for_validation client request redirect_uri session_token
          (validate_request client request)

  abbrev pub for_client :
      AuthorizeRequest → Option String → String → Option Client → Service AuthorizeResult
  for_client request session_token id none =
      pure (request_error "invalid_client" (text ("unknown client_id: " ++ id)))
  for_client request session_token id (some client) =
      for_redirect_uri client request session_token (truthy request.redirect_uri)

  abbrev pub for_client_id :
      AuthorizeRequest → Option String → Option String → Service AuthorizeResult
  for_client_id request session_token none =
      pure (request_error "invalid_request" (text "client_id is required"))
  for_client_id request session_token (some id) = do
    key ← lift (client_id id)
    found ← on_clients (Registry.find_by_id key)
    for_client request session_token id found

  -- `AuthorizeService.execute`
  unfoldable pub authorize : AuthorizeRequest → Option String → Service AuthorizeResult
  authorize request session_token = for_client_id request session_token (truthy request.client_id)
