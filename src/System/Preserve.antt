-- ===== src/System/Preserve.antt =====
-- An invariant that the writing steps keep is kept by every request, and so by every history.
use oauth_lab.Prelude.{ℕ, String, Option, none, some, List, [], ◌∷◌}
use oauth_lab.Flow.{pure}
use oauth_lab.Flow.Keeps.{Keeps, keeps_rules, if-Keeps}
use oauth_lab.Domain.Errors.{Exception}
use oauth_lab.Domain.Scope.{ScopeSet}
use oauth_lab.Domain.Client.{
  Client, GrantType, authorization_code, client_credentials, refresh_token, device_code, jwt_bearer,
  token_exchange,
}
use oauth_lab.Memory.AuthorizationCodes
use oauth_lab.Memory.RefreshTokens
use oauth_lab.Memory.DeviceCodes
use oauth_lab.Memory.Registry
use oauth_lab.World.{
  World, on_clients, on_users, on_issuers, on_auth_codes, on_refresh_tokens, on_device_codes,
  services,
}
use oauth_lab.Service.IssueToken.{run_grant, issue_token}
use oauth_lab.Service.Session.{verify_session, login, user_info}
use oauth_lab.Service.Consent.{ConsentDecision, grant_code}
use oauth_lab.Service.Device.{
  DeviceAuthorizationRequest, DeviceConsentDecision, request_device_authorization, device_consent,
}
use oauth_lab.World.Env.{Env, opaque, jwt, TokenFormat}
use oauth_lab.World.Issuers.{
  TokenOrder, now, token_urlsafe, issue, issue_in, issue_opaque, issue_jwt, issue_id_token,
}
use oauth_lab.Token.{TokenRequest, required, require_grant, mint_refresh_token}
use oauth_lab.ClientAuth.{
  ClientCredentials, Authenticator, basic, post, none_method, authenticate, authenticate_with,
  find_configured, verify_secret,
}
use oauth_lab.ClientAuth.Basic.{Decoder}
use oauth_lab.Grant.AuthorizationCode as Code
use oauth_lab.Domain.AuthorizationCode
use oauth_lab.Grant.ClientCredentials
use oauth_lab.Grant.RefreshToken
use oauth_lab.Grant.DeviceCode
use oauth_lab.Grant.JwtBearer
use oauth_lab.Grant.TokenExchange
use oauth_lab.Jwt.Keeps.{decode-Keeps, validate-Keeps, assertion-Keeps}
use oauth_lab.Jwt.{verify_access_token}

-- The steps that write: what has to be proved of an invariant.
pub record StepsKeep (env : Env) (P : World → Type 0) : Type 0 where
  pub reading : Keeps P (now env)
  pub drawing : (n : ℕ) → Keeps P (token_urlsafe env n)
  pub consuming : (v : String) (t : ℕ) → Keeps P (on_auth_codes (AuthorizationCodes.consume v t))
  pub minting :
      (c : Client) (sub : String) (s : ScopeSet) (t : ℕ)
      → Keeps P (mint_refresh_token env c sub s t)
  pub refreshing : (r : TokenRequest) (c : Client) → Keeps P (RefreshToken.execute env r c)
  pub polling : (r : TokenRequest) (c : Client) → Keeps P (DeviceCode.execute env r c)
  pub granting : (c : Client) (d : ConsentDecision) → Keeps P (grant_code env c d)
  pub opening : (r : DeviceAuthorizationRequest) → Keeps P (request_device_authorization env r)
  pub deciding : (d : DeviceConsentDecision) → Keeps P (device_consent env d)

module _ {env : Env} {P : World → Type 0} (k : StepsKeep env P) where
  open k use {reading, drawing, consuming, minting, refreshing, polling}

  pub now-Keeps : Keeps P (now env)
  now-Keeps = reading

  pub find_client-Keeps : (id : String) → Keeps P (on_clients (Registry.find_by_id id))
  unfolding services Registry.find_by_id
  find_client-Keeps id = record { from = λ w h. h }

  find_named-Keeps : (v : String) → Keeps P (on_users (Registry.find_by_username v))
  unfolding services Registry.find_by_username
  find_named-Keeps v = record { from = λ w h. h }

  pub find_user-Keeps : (v : String) → Keeps P (on_users (Registry.find_by_sub v))
  unfolding services Registry.find_by_sub
  find_user-Keeps v = record { from = λ w h. h }

  find_issuer-Keeps : (v : String) → Keeps P (on_issuers (Registry.find_by_issuer v))
  unfolding services Registry.find_by_issuer
  find_issuer-Keeps v = record { from = λ w h. h }

  find_refresh-Keeps : (v : String) → Keeps P (on_refresh_tokens (RefreshTokens.find_by_value v))
  unfolding services RefreshTokens.find_by_value
  find_refresh-Keeps v = record { from = λ w h. h }

  find_device-Keeps : (v : String) → Keeps P (on_device_codes (DeviceCodes.find_by_device_code v))
  unfolding services DeviceCodes.find_by_device_code
  find_device-Keeps v = record { from = λ w h. h }

  pub find_user_code-Keeps :
      (v : String) → Keeps P (on_device_codes (DeviceCodes.find_by_user_code v))
  unfolding services DeviceCodes.find_by_user_code
  find_user_code-Keeps v = record { from = λ w h. h }

  required-Keeps : (o : Option String) (e : Exception) → Keeps P (required o e)
  unfolding required
  required-Keeps none e = search keeps_rules
  required-Keeps (some s) e = search keeps_rules

  require_grant-Keeps : (c : Client) (g : GrantType) → Keeps P (require_grant c g)
  unfolding require_grant
  require_grant-Keeps c g = search keeps_rules

  issue_in-Keeps : (f : TokenFormat) (o : TokenOrder) → Keeps P (issue_in env f o)
  unfolding issue_opaque issue_jwt
  issue_in-Keeps opaque o = search (keeps_rules, drawing)
  issue_in-Keeps jwt o = search (keeps_rules, now-Keeps, drawing)

  issue-Keeps : (o : TokenOrder) → Keeps P (issue env o)
  unfolding issue
  issue-Keeps o = issue_in-Keeps env.token_format o

  id_token-Keeps :
      (c : Client) (a : AuthorizationCode.AuthorizationCode) (s : String)
      → Keeps P (Code.mint_id_token env c a s)
  unfolding Code.mint_id_token issue_id_token
  id_token-Keeps c a s = search (keeps_rules, now-Keeps) depth 9

  ruleset steps = (
    keeps_rules, now-Keeps, find_issuer-Keeps, find_refresh-Keeps, find_device-Keeps,
    required-Keeps, require_grant-Keeps, issue-Keeps, id_token-Keeps,
  )

  mint_code_tokens-Keeps :
      (c : Client) (a : AuthorizationCode.AuthorizationCode) → Keeps P (Code.mint_tokens env c a)
  unfolding Code.mint_tokens
  mint_code_tokens-Keeps c a = search (steps, minting) depth 12

  code_grant-Keeps : (r : TokenRequest) (c : Client) → Keeps P (Code.execute env r c)
  unfolding Code.execute Code.check_code
  code_grant-Keeps r c = search (steps, consuming, mint_code_tokens-Keeps) depth 20

  credentials_grant-Keeps :
      (r : TokenRequest) (c : Client) → Keeps P (ClientCredentials.execute env r c)
  unfolding ClientCredentials.execute
  credentials_grant-Keeps r c = search steps depth 12

  exchange_grant-Keeps : (r : TokenRequest) (c : Client) → Keeps P (TokenExchange.execute env r c)
  unfolding TokenExchange.execute
  exchange_grant-Keeps r c = search (steps, validate-Keeps) depth 20

  bearer_grant-Keeps : (r : TokenRequest) (c : Client) → Keeps P (JwtBearer.execute env r c)
  unfolding JwtBearer.execute JwtBearer.check_assertion
  bearer_grant-Keeps r c = search (steps, assertion-Keeps) depth 20

  run_grant-Keeps : (g : GrantType) (r : TokenRequest) (c : Client) → Keeps P (run_grant env g r c)
  unfolding run_grant
  run_grant-Keeps authorization_code r c = code_grant-Keeps r c
  run_grant-Keeps client_credentials r c = credentials_grant-Keeps r c
  run_grant-Keeps refresh_token r c = refreshing r c
  run_grant-Keeps device_code r c = polling r c
  run_grant-Keeps jwt_bearer r c = bearer_grant-Keeps r c
  run_grant-Keeps token_exchange r c = exchange_grant-Keeps r c

  authenticate_with-Keeps :
      (d : Decoder) (a : Authenticator) (c : ClientCredentials)
      → Keeps P (authenticate_with env d a c)
  unfolding authenticate_with find_configured verify_secret
  authenticate_with-Keeps d basic c = search (keeps_rules, find_client-Keeps) depth 20
  authenticate_with-Keeps d post c = search (keeps_rules, find_client-Keeps) depth 20
  authenticate_with-Keeps d none_method c = search (keeps_rules, find_client-Keeps) depth 20

  authenticate-Keeps :
      (d : Decoder) (auths : List Authenticator) (c : ClientCredentials)
      → Keeps P (authenticate env d auths c)
  unfolding authenticate
  authenticate-Keeps d [] c = search keeps_rules
  authenticate-Keeps d (a ∷ auths) c =
      if-Keeps _ _ _ (authenticate_with-Keeps d a c) (authenticate-Keeps d auths c)

  pub issue_token-Keeps :
      (d : Decoder) (auths : List Authenticator) (gs : List GrantType) (c : ClientCredentials)
      (r : TokenRequest)
      → Keeps P (issue_token env d auths gs c r)
  unfolding issue_token
  issue_token-Keeps d auths gs c r =
      search (keeps_rules, authenticate-Keeps, run_grant-Keeps) depth 8

  pub session-Keeps : (o : Option String) → Keeps P (verify_session env o)
  unfolding verify_session pure
  session-Keeps o = record { from = λ w h. h }

  pub login-Keeps : (u p : String) → Keeps P (login env u p)
  unfolding login
  login-Keeps u p = search (keeps_rules, drawing, find_named-Keeps) depth 12

  pub user_info-Keeps : (s : String) → Keeps P (user_info env s)
  unfolding user_info verify_access_token
  user_info-Keeps s = search (keeps_rules, find_user-Keeps, decode-Keeps) depth 12
