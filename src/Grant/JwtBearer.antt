-- ===== src/Grant/JwtBearer.antt =====
-- application/service/grant/jwt_bearer_grant.py
use Prim.Native.String.{◌++◌}
use oauth_lab.Prelude.{String, none, some}
use oauth_lab.Flow.{Outcome, ok, raised, pure, lift, or_raise, ◌>>=◌, ◌>>◌}
use oauth_lab.Domain.Errors.{
  Exception, failure, oauth_error, library_failure, invalid_request, invalid_grant,
}
use oauth_lab.Domain.ScopeValidator.{grantable}
use oauth_lab.Domain.Client.{Client, jwt_bearer}
use oauth_lab.Jwt.{AssertionClaims, verify_assertion}
use oauth_lab.Memory.Registry
use oauth_lab.World.{Service, on_issuers}
use oauth_lab.World.Env.{Env, JwtFailure, Payload}
use oauth_lab.World.Issuers.{issue}
use oauth_lab.Token.{TokenRequest, TokenIssuanceResult, required, require_grant, first_or}

-- `decode(assertion, options={"verify_signature": False})` with its handler
abbrev peek : Outcome JwtFailure Payload → Outcome Exception Payload
peek (ok payload) = ok payload
peek (raised f) =
    raised (oauth_error invalid_grant (library_failure "assertion is not a valid JWT: "))

module _ (env : Env) where
  -- `_verify_assertion`
  unfoldable pub check_assertion : String → Service AssertionClaims
  check_assertion assertion = do
    unverified ← lift (peek (env.decode_unverified assertion))
    iss ← required unverified.iss (failure invalid_grant "assertion is missing iss claim")
    found ← on_issuers (Registry.find_by_issuer iss)
    trusted ← or_raise found (failure invalid_grant ("assertion issuer is not trusted: " ++ iss))
    verify_assertion env assertion trusted env.expected_audience

  unfoldable pub execute : TokenRequest → Client → Service TokenIssuanceResult
  execute request client = do
    require_grant client jwt_bearer
    assertion ←
        or_raise request.assertion
          (failure invalid_request "assertion is required for jwt-bearer grant")
    claims ← check_assertion assertion
    granted_scope ← lift (grantable request.scope client.allowed_scopes)
    issued ← issue env (record {
      subject = claims.subject;
      client_id = client.id;
      scope = granted_scope;
      audience = first_or request.audience client.default_audience;
      ttl_seconds = env.access_token_ttl;
    })
    pure (record {
      access_token = issued.value;
      token_type = "Bearer";
      expires_in = issued.expires_in_seconds;
      scope = some granted_scope;
      refresh_token = none;
      id_token = none;
      issued_token_type = none;
    })
