-- ===== src/ClientAuth.antt =====
-- application/service/client_auth: the authenticators and the pipeline that selects one; and
-- `ClientCredentials` of application/port/inbound/issue_token_use_case.py.
pub mod Basic
pub mod Pipeline
use oauth_lab.Prelude.{
  String, Option, none, some, List, [], ◌∷◌, map, Bool, true, false, not, ◌&&◌, is_some,
  if◌then◌else◌,
}
use oauth_lab.Flow.{pure, raise, lift, guard, or_raise, ◌>>=◌, ◌>>◌}
use oauth_lab.Domain.Errors.{failure, assertion_error, invalid_client}
use oauth_lab.Domain.Scope.{ScopeSet}
use oauth_lab.Domain.Client
use oauth_lab.Domain.Client.{
  Client, ClientAuthMethod, client_secret_basic, client_secret_post, no_auth, method_eq,
  method_value, Bytes,
}
use oauth_lab.Memory.Registry
use oauth_lab.World.{Service, on_clients}
use oauth_lab.World.Env.{Env}
use oauth_lab.ClientAuth.Basic.{Decoder, decode_basic}

pub record ClientCredentials : Type 0 where
  pub basic_auth_header : Option String
  pub form_client_id : Option String
  pub form_client_secret : Option String
  pub client_assertion : Option String
  pub client_assertion_type : Option String

pub record AuthenticatedClient : Type 0 where
  pub client : Client
  pub auth_method : ClientAuthMethod

-- The three strategies: client_secret_basic_authenticator.py, client_secret_post_authenticator.py and
-- none_authenticator.py.
pub data Authenticator : Type 0 where
  basic post none_method : Authenticator

unfoldable pub method : Authenticator → ClientAuthMethod
method basic = client_secret_basic
method post = client_secret_post
method none_method = no_auth

-- `ClientSecretBasicAuthenticator.can_handle`
abbrev pub basic_can_handle : ClientCredentials → Bool
basic_can_handle creds = is_some creds.basic_auth_header

-- `ClientSecretPostAuthenticator.can_handle`
abbrev pub post_can_handle : ClientCredentials → Bool
post_can_handle creds =
    not (is_some creds.basic_auth_header)
    && is_some creds.form_client_id
    && is_some creds.form_client_secret

-- `NoneAuthenticator.can_handle`
abbrev pub none_can_handle : ClientCredentials → Bool
none_can_handle creds =
    not (is_some creds.basic_auth_header)
    && not (is_some creds.form_client_secret)
    && not (is_some creds.client_assertion)
    && is_some creds.form_client_id

unfoldable pub can_handle : Authenticator → ClientCredentials → Bool
can_handle basic creds = basic_can_handle creds
can_handle post creds = post_can_handle creds
can_handle none_method creds = none_can_handle creds

module _ (env : Env) (decoder : Decoder) where
  -- `_verify_secret`
  unfoldable pub verify_secret : Client → String → Service Unit
  verify_secret client secret = do
    secret_hash ←
        or_raise client.secret_hash (failure invalid_client "client has no secret configured")
    guard (env.verify_secret secret_hash secret)
        (failure invalid_client "client authentication failed")

  -- The lookup and the test of the registered method; the text is the description of the refusal.
  unfoldable pub find_configured : Authenticator → String → String → Service Client
  find_configured auth id refusal = do
    key ← lift (Client.client_id id)
    found ← on_clients (Registry.find_by_id key)
    client ← or_raise found (failure invalid_client "unknown client_id")
    guard (method_eq client.token_endpoint_auth_method (method auth))
        (failure invalid_client refusal)
    pure client

  -- `ClientSecretBasicAuthenticator.authenticate`
  abbrev pub basic_authenticate : ClientCredentials → Service AuthenticatedClient
  basic_authenticate creds = do
    header ← or_raise creds.basic_auth_header assertion_error
    pair ← lift (decode_basic decoder header)
    client ← find_configured basic pair.0 "client is not configured for client_secret_basic"
    verify_secret client pair.1
    pure (record { client = client; auth_method = client_secret_basic })

  -- `ClientSecretPostAuthenticator.authenticate`
  abbrev pub post_authenticate : ClientCredentials → Service AuthenticatedClient
  post_authenticate creds = do
    id ← or_raise creds.form_client_id assertion_error
    secret ← or_raise creds.form_client_secret assertion_error
    client ← find_configured post id "client is not configured for client_secret_post"
    verify_secret client secret
    pure (record { client = client; auth_method = client_secret_post })

  -- `NoneAuthenticator.authenticate`
  abbrev pub none_authenticate : ClientCredentials → Service AuthenticatedClient
  none_authenticate creds = do
    id ← or_raise creds.form_client_id assertion_error
    client ← find_configured none_method id "client requires authentication"
    pure (record { client = client; auth_method = no_auth })

  unfoldable pub authenticate_with : Authenticator → ClientCredentials → Service AuthenticatedClient
  authenticate_with basic creds = basic_authenticate creds
  authenticate_with post creds = post_authenticate creds
  authenticate_with none_method creds = none_authenticate creds

  -- `ClientCredentialsPipeline.authenticate`: the first authenticator that can handle the request
  unfoldable pub authenticate : List Authenticator → ClientCredentials → Service AuthenticatedClient
  authenticate [] creds =
      raise (failure invalid_client "no recognised client authentication method was used")
  authenticate (auth ∷ auths) creds =
      let rest = authenticate auths creds in
      if can_handle auth creds then authenticate_with auth creds else rest

-- `supported_methods`
unfoldable pub supported_methods : List Authenticator → List String
supported_methods auths = map (λ a. method_value (method a)) auths
