-- ===== src/Grant/TokenExchange.antt =====
-- application/service/grant/token_exchange_grant.py
use oauth_lab.Prelude.{String, Option, none, some, ◌==◌, if◌then◌else◌}
use oauth_lab.Flow.{Outcome, ok, pure, lift, guard, ◌>>=◌, ◌>>◌}
use oauth_lab.Domain.Errors.{Exception, failure, oauth_error, around_repr, invalid_request}
use oauth_lab.Domain.Scope.{ScopeSet, is_empty, intersect}
use oauth_lab.Domain.ScopeValidator.{grantable}
use oauth_lab.Domain.Client.{Client, token_exchange, uri_value, access_token_type}
use oauth_lab.Jwt.{SubjectTokenClaims, validate}
use oauth_lab.World.{Service}
use oauth_lab.World.Env.{Env}
use oauth_lab.World.Issuers.{issue, or_default}
use oauth_lab.Token.{TokenRequest, TokenIssuanceResult, required, require_grant, first_or}

-- `_derive_scope`
unfoldable pub derive_scope :
    TokenRequest → SubjectTokenClaims → Client → Outcome Exception ScopeSet
derive_scope request subject client =
    let upper_bound = intersect subject.scope client.allowed_scopes in
    if is_empty request.scope then ok upper_bound else grantable request.scope upper_bound

-- `_derive_audience`
unfoldable pub derive_audience : TokenRequest → Client → Option String
derive_audience request client =
    first_or request.audience (first_or request.resource client.default_audience)

module _ (env : Env) where
  unfoldable pub execute : TokenRequest → Client → Service TokenIssuanceResult
  execute request client = do
    require_grant client token_exchange
    subject_token ←
        required request.subject_token (failure invalid_request "subject_token is required")
    subject_token_type ←
        required request.subject_token_type
          (failure invalid_request "subject_token_type is required")
    let requested_type = or_default request.requested_token_type (uri_value access_token_type)
    guard (requested_type == uri_value access_token_type) (
        oauth_error invalid_request
          (around_repr "requested_token_type " requested_type " is not supported"))
    claims ← validate env subject_token subject_token_type
    granted_scope ← lift (derive_scope request claims client)
    issued ← issue env (record {
      subject = claims.subject;
      client_id = client.id;
      scope = granted_scope;
      audience = derive_audience request client;
      ttl_seconds = env.access_token_ttl;
    })
    pure (record {
      access_token = issued.value;
      token_type = "Bearer";
      expires_in = issued.expires_in_seconds;
      scope = some granted_scope;
      refresh_token = none;
      id_token = none;
      issued_token_type = some (uri_value access_token_type);
    })
