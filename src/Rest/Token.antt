-- ===== src/Rest/Token.antt =====
-- rest/token_controller.py: `POST /token`
use Prim.Native.String.{◌++◌}
use oauth_lab.Prelude.{String, Option, none, some, List, [], ◌∷◌, not, ◌&&◌, ◌==◌, if◌then◌else◌}
use oauth_lab.Flow.{Outcome, ok, raised, pure, lift, ◌>>=◌}
use oauth_lab.Dict.{Dict}
use oauth_lab.Domain.Errors.{Exception, failure, invalid_request, unsupported_grant_type}
use oauth_lab.Domain.Scope.{ScopeSet, parse, is_empty, to_str}
use oauth_lab.Domain.Client.{GrantType, grant_type}
use oauth_lab.ClientAuth.{ClientCredentials, Authenticator}
use oauth_lab.ClientAuth.Basic.{Decoder}
use oauth_lab.Token.{TokenRequest, TokenIssuanceResult}
use oauth_lab.World.{Service}
use oauth_lab.World.Env.{Env}
use oauth_lab.Service.IssueToken.{issue_token}
use oauth_lab.Http.{Response, Value, string, number, json_response, no_store_headers, put_some}
use oauth_lab.Http.Texts.{lower, strip, partition_space}

-- the header and the form fields of the request
pub record TokenForm : Type 0 where
  pub authorization : Option String
  pub client_id : Option String
  pub client_secret : Option String
  pub client_assertion : Option String
  pub client_assertion_type : Option String
  pub grant_type : Option String
  pub scope : Option String
  pub audience : Option (List String)
  pub resource : Option (List String)
  pub code : Option String
  pub redirect_uri : Option String
  pub code_verifier : Option String
  pub refresh_token : Option String
  pub device_code : Option String
  pub assertion : Option String
  pub subject_token : Option String
  pub subject_token_type : Option String
  pub actor_token : Option String
  pub actor_token_type : Option String
  pub requested_token_type : Option String

-- the value behind `Basic`, where the header has that scheme
unfoldable pub basic_value : Option String → Option String
unfolding lower strip partition_space
basic_value none = none
basic_value (some header) =
    let (scheme, value) = partition_space header in
    if lower scheme == "basic" && not (value == "") then some (strip value) else none

unfoldable pub extract_credentials : TokenForm → ClientCredentials
unfolding basic_value
extract_credentials form = record {
  basic_auth_header = basic_value form.authorization;
  form_client_id = form.client_id;
  form_client_secret = form.client_secret;
  client_assertion = form.client_assertion;
  client_assertion_type = form.client_assertion_type;
}

-- `tuple(xs or ())`
abbrev pub or_nothing : Option (List String) → List String
or_nothing none = []
or_nothing (some xs) = xs

-- the request of a form, once its grant type and scope are read
unfoldable pub request_of : TokenForm → GrantType → ScopeSet → TokenRequest
request_of form g scope = record {
  grant_type = g;
  scope = scope;
  audience = or_nothing form.audience;
  resource = or_nothing form.resource;
  code = form.code;
  redirect_uri = form.redirect_uri;
  code_verifier = form.code_verifier;
  refresh_token = form.refresh_token;
  device_code = form.device_code;
  assertion = form.assertion;
  subject_token = form.subject_token;
  subject_token_type = form.subject_token_type;
  actor_token = form.actor_token;
  actor_token_type = form.actor_token_type;
  requested_token_type = form.requested_token_type;
}

-- `ScopeSet.parse(scope)`, whose `ValueError` nobody catches
abbrev pub with_scope :
    TokenForm → GrantType → Outcome Exception ScopeSet → Outcome Exception TokenRequest
with_scope form g (raised e) = raised e
with_scope form g (ok scope) = ok (request_of form g scope)

abbrev pub with_grant : TokenForm → String → Option GrantType → Outcome Exception TokenRequest
with_grant form s none = raised (failure unsupported_grant_type ("unknown grant_type: " ++ s))
with_grant form s (some g) = with_scope form g (parse form.scope)

unfoldable pub build_token_request : TokenForm → Outcome Exception TokenRequest
unfolding request_of
build_token_request form = elim form.grant_type [
  | none ↦ raised (failure invalid_request "grant_type is required")
  | some s ↦ with_grant form s (grant_type s)
]

-- `result.scope is not None and not result.scope.is_empty()`
abbrev pub shown_scope : Option ScopeSet → Option String
shown_scope none = none
shown_scope (some s) = if is_empty s then none else some (to_str s)

unfoldable pub token_body : TokenIssuanceResult → Dict Value
token_body result =
    let body =
      ("access_token", string result.access_token)
      ∷ ("token_type", string result.token_type)
      ∷ ("expires_in", number result.expires_in)
      ∷ [] in
    let scoped = put_some string (shown_scope result.scope) "scope" body in
    let refreshed = put_some string result.refresh_token "refresh_token" scoped in
    let identified = put_some string result.id_token "id_token" refreshed in
    put_some string result.issued_token_type "issued_token_type" identified

module _ (env : Env) (decoder : Decoder) (auths : List Authenticator)
    (grants : List GrantType) where
  -- `token`, with `CoreHandler.token`
  unfoldable pub token : TokenForm → Service Response
  unfolding token_body extract_credentials
  token form = do
    request ← lift (build_token_request form)
    result ← issue_token env decoder auths grants (extract_credentials form) request
    pure (json_response 200 no_store_headers (token_body result))
