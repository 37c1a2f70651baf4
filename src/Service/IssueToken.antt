-- ===== src/Service/IssueToken.antt =====
-- application/service/issue_token_service.py and application/service/grant/grant_registry.py
pub mod Authenticated
use Prim.Native.String.{◌++◌}
use oauth_lab.Prelude.{
  String, Option, none, some, Bool, true, false, List, [], ◌∷◌, map, if◌then◌else◌,
}
use oauth_lab.Flow.{Outcome, ok, raised, lift, ◌>>=◌}
use oauth_lab.Domain.Errors.{Exception, failure, unsupported_grant_type}
use oauth_lab.Domain.Client.{
  Client, GrantType, authorization_code, client_credentials, refresh_token, device_code, jwt_bearer,
  token_exchange, grant_type, grant_value, grant_eq,
}
use oauth_lab.ClientAuth.{ClientCredentials, Authenticator, authenticate}
use oauth_lab.ClientAuth.Basic.{Decoder}
use oauth_lab.World.{Service}
use oauth_lab.World.Env.{Env}
use oauth_lab.Token.{TokenRequest, TokenIssuanceResult}
use oauth_lab.Grant.AuthorizationCode
use oauth_lab.Grant.ClientCredentials
use oauth_lab.Grant.RefreshToken
use oauth_lab.Grant.DeviceCode
use oauth_lab.Grant.JwtBearer
use oauth_lab.Grant.TokenExchange

-- `gt in self._by_type`, over the registered strategies
unfoldable pub registered : List GrantType → GrantType → Bool
registered [] g = false
registered (h ∷ hs) g = if grant_eq h g then true else registered hs g

-- `GrantRegistry.resolve`; a strategy is named by its `grant_type`
unfoldable pub resolve : List GrantType → Option String → Outcome Exception GrantType
resolve grants none = raised (failure unsupported_grant_type "grant_type is required")
resolve grants (some s) = elim (grant_type s) [
  | none ↦ raised (failure unsupported_grant_type ("unknown grant_type: " ++ s))
  | some g ↦
      if registered grants g
      then ok g
      else raised
          (failure unsupported_grant_type ("grant_type not implemented yet: " ++ grant_value g))
]

-- `supported_grant_types`
unfoldable pub supported_grant_types : List GrantType → List String
supported_grant_types grants = map grant_value grants

module _ (env : Env) where
  -- `strategy.execute`
  unfoldable pub run_grant : GrantType → TokenRequest → Client → Service TokenIssuanceResult
  run_grant authorization_code = AuthorizationCode.execute env
  run_grant client_credentials = ClientCredentials.execute env
  run_grant refresh_token = RefreshToken.execute env
  run_grant device_code = DeviceCode.execute env
  run_grant jwt_bearer = JwtBearer.execute env
  run_grant token_exchange = TokenExchange.execute env

  module _ (decoder : Decoder) (auths : List Authenticator) (grants : List GrantType) where
    -- `IssueTokenService.execute`
    unfoldable pub issue_token : ClientCredentials → TokenRequest → Service TokenIssuanceResult
    issue_token creds request = do
      authenticated ← authenticate env decoder auths creds
      strategy ← lift (resolve grants (some (grant_value request.grant_type)))
      run_grant strategy request authenticated.client
