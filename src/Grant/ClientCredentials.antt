-- ===== src/Grant/ClientCredentials.antt =====
-- application/service/grant/client_credentials_grant.py
use oauth_lab.Prelude.{none, some}
use oauth_lab.Flow.{pure, lift, ◌>>=◌, ◌>>◌}
use oauth_lab.Domain.Client.{Client, client_credentials}
use oauth_lab.Domain.ScopeValidator.{grantable}
use oauth_lab.World.{Service}
use oauth_lab.World.Env.{Env}
use oauth_lab.World.Issuers.{issue}
use oauth_lab.Token.{TokenRequest, TokenIssuanceResult, require_grant, first_or}

module _ (env : Env) where
  unfoldable pub execute : TokenRequest → Client → Service TokenIssuanceResult
  execute request client = do
    require_grant client client_credentials
    granted_scope ← lift (grantable request.scope client.allowed_scopes)
    issued ← issue env (record {
      subject = client.id;
      client_id = client.id;
      scope = granted_scope;
      audience = first_or request.audience client.default_audience;
      ttl_seconds = env.access_token_ttl;
    })
    pure (record {
      access_token = issued.value;
      token_type = "Bearer";
      expires_in = issued.expires_in_seconds;
      scope = some granted_scope;
      refresh_token = none;
      id_token = none;
      issued_token_type = none;
    })
