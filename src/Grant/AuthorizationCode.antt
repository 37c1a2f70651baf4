-- ===== src/Grant/AuthorizationCode.antt =====
-- application/service/grant/authorization_code_grant.py
pub mod Steps
pub mod Sound
use oauth_lab.Prelude.{String, Option, none, some, Bool, true, ◌==◌, contains, if◌then◌else◌}
use oauth_lab.Flow.{pure, guard, ◌>>=◌, ◌>>◌}
use oauth_lab.Domain.Errors.{failure, invalid_request, invalid_grant}
use oauth_lab.Domain.Client.{Client, authorization_code}
use oauth_lab.Domain.AuthorizationCode.{AuthorizationCode}
use oauth_lab.Domain.Pkce.{verify}
use oauth_lab.Memory.AuthorizationCodes
use oauth_lab.World.{Service, on_auth_codes}
use oauth_lab.World.Env.{Env}
use oauth_lab.World.Issuers.{now, issue, issue_id_token}
use oauth_lab.Token.{TokenRequest, TokenIssuanceResult, required, require_grant, mint_refresh_token}

-- `request.redirect_uri is None or code.redirect_uri == request.redirect_uri`
abbrev pub uri_agrees : Option String → String → Bool
uri_agrees none bound = true
uri_agrees (some uri) bound = bound == uri

module _ (env : Env) where
  -- the tests on the consumed code
  unfoldable pub check_code : TokenRequest → Client → String → AuthorizationCode → Service Unit
  check_code request client code_verifier code = do
    guard (code.client_id == client.id)
        (failure invalid_grant "authorization code was issued to a different client")
    guard (uri_agrees request.redirect_uri code.redirect_uri)
        (failure invalid_grant "redirect_uri does not match the value used at /authorize")
    guard (verify env.s256 code_verifier code.pkce_challenge)
        (failure invalid_grant "PKCE verification failed (code_verifier does not match)")

  unfoldable pub mint_id_token : Client → AuthorizationCode → String → Service (Option String)
  mint_id_token client code access_token =
      if contains code.scope.scopes "openid"
      then (do
        id_token ←
            issue_id_token env code.user_sub client.id (some access_token) code.nonce
              (some code.issued_at)
        pure (some id_token))
      else pure none

  -- what follows the tests
  unfoldable pub mint_tokens : Client → AuthorizationCode → Service TokenIssuanceResult
  mint_tokens client code = do
    t ← now env
    access ← issue env (record {
      subject = code.user_sub;
      client_id = client.id;
      scope = code.scope;
      audience = client.default_audience;
      ttl_seconds = env.access_token_ttl;
    })
    refresh ← mint_refresh_token env client code.user_sub code.scope t
    id_token ← mint_id_token client code access.value
    pure (record {
      access_token = access.value;
      token_type = "Bearer";
      expires_in = access.expires_in_seconds;
      scope = some code.scope;
      refresh_token = refresh;
      id_token = id_token;
      issued_token_type = none;
    })

  unfoldable pub execute : TokenRequest → Client → Service TokenIssuanceResult
  execute request client = do
    require_grant client authorization_code
    value ←
        required request.code
          (failure invalid_request "'code' is required for grant_type=authorization_code")
    code_verifier ← required request.code_verifier (
        failure invalid_request
          "'code_verifier' is required for grant_type=authorization_code (PKCE mandatory)")
    t ← now env
    code ← on_auth_codes (AuthorizationCodes.consume value t)
    check_code request client code_verifier code
    mint_tokens client code
