-- ===== src/Service/IssueToken/Authenticated.antt =====
-- A token request that is answered was authenticated, and ran the grant that it names.
use oauth_lab.Prelude.{some, true, List, ◌≡◌, refl, sym, ◌∙◌, arith}
use mathlib.Core.Path.{ap₂}
use oauth_lab.Flow.{ok}
use oauth_lab.Flow.Inversion.{bind-eq-ok, lift-eq-ok}
use oauth_lab.Domain.Client.{
  GrantType, authorization_code, client_credentials, refresh_token, device_code, jwt_bearer,
  token_exchange, grant_value, grant_type,
}
use oauth_lab.ClientAuth.{ClientCredentials, AuthenticatedClient, Authenticator}
use oauth_lab.ClientAuth.Basic.{Decoder}
use oauth_lab.ClientAuth.Pipeline.{Cleared, authenticate-Cleared}
use oauth_lab.World.{World}
use oauth_lab.World.Env.{Env}
use oauth_lab.Token.{TokenRequest, TokenIssuanceResult}
use oauth_lab.Service.IssueToken.{registered, resolve, run_grant, issue_token}

grant_type-value : (g : GrantType) → grant_type (grant_value g) ≡ some g
unfolding grant_type
grant_type-value authorization_code = refl
grant_type-value client_credentials = refl
grant_type-value refresh_token = refl
grant_type-value device_code = refl
grant_type-value jwt_bearer = refl
grant_type-value token_exchange = refl

resolve-ok :
    (grants : List GrantType) (g h : GrantType)
    → resolve grants (some (grant_value g)) ≡ ok h
    → (h ≡ g) × (registered grants g ≡ true)
unfolding resolve
resolve-ok grants g h e = ground (arith, grant_type-value g)

module _ (env : Env) (decoder : Decoder) (auths : List Authenticator)
    (grants : List GrantType) where
  -- Tokens are issued only to an authenticated client: the pipeline let it through on the credentials
  -- of the request, the grant that the request names is registered, and it is that grant that answered for
  -- that client, in the state in which the request came.
  pub issue_token-authenticated :
      (creds : ClientCredentials) (request : TokenRequest) (w w' : World) (r : TokenIssuanceResult)
      → issue_token env decoder auths grants creds request w ≡ (ok r, w')
      → (a : AuthenticatedClient) × Cleared env decoder creds w a
        × (registered grants request.grant_type ≡ true)
        × (run_grant env request.grant_type request a.client w ≡ (ok r, w'))
  unfolding issue_token
  issue_token-authenticated creds request w w' r h =
      let (a, w1, ea, h1) = bind-eq-ok _ _ h in
      let (g, eg, h2) = lift-eq-ok _ _ h1 in
      let (same, cleared) = authenticate-Cleared env decoder auths creds w w1 ea in
      let (eq, found) = resolve-ok grants request.grant_type g eg in
      (a, cleared, found, ap₂ (λ k u. run_grant env k request a.client u) (sym eq) (sym same) ∙ h2)
