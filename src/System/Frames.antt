-- ===== src/System/Frames.antt =====
-- The writing steps keep an invariant that does not read the repositories they write to.
use oauth_lab.Prelude.{ℕ, String, Option, none, some}
use oauth_lab.Flow.{Flow}
use oauth_lab.Flow.Keeps.{Keeps, keeps_rules}
use oauth_lab.Dict.{Dict}
use oauth_lab.Domain.Errors.{Exception}
use oauth_lab.Domain.Scope.{ScopeSet}
use oauth_lab.Domain.Client.{Client, GrantType}
use oauth_lab.Domain.RefreshToken.{RefreshToken}
use oauth_lab.Domain.DeviceCode.{DeviceCode}
use oauth_lab.Memory.DeviceCodes
use oauth_lab.World.{World, on_refresh_tokens, on_device_codes}
use oauth_lab.World.Env.{Env, TokenFormat, opaque, jwt}
use oauth_lab.World.Issuers.{
  now, token_urlsafe, TokenOrder, issue, issue_id_token, issue_in, issue_opaque, issue_jwt,
}
use oauth_lab.Token.{TokenRequest, required, require_grant, mint_refresh_token}
use oauth_lab.Grant.AuthorizationCode as Code
use oauth_lab.Domain.AuthorizationCode.{AuthorizationCode}
use oauth_lab.Grant.RefreshToken
use oauth_lab.Grant.DeviceCode
use oauth_lab.Service.Device.{DeviceConsentDecision, device_consent, decide}

module _ {P : World → Type 0} where
  pub required-Keeps : (o : Option String) (e : Exception) → Keeps P (required o e)
  unfolding required
  required-Keeps none e = search keeps_rules
  required-Keeps (some s) e = search keeps_rules

  pub require_grant-Keeps : (c : Client) (g : GrantType) → Keeps P (require_grant c g)
  unfolding require_grant
  require_grant-Keeps c g = search keeps_rules

module _ (env : Env) {P : World → Type 0} (reading : Keeps P (now env))
    (drawing : (n : ℕ) → Keeps P (token_urlsafe env n)) where
  issue_in-Keeps : (f : TokenFormat) (o : TokenOrder) → Keeps P (issue_in env f o)
  unfolding issue_opaque issue_jwt
  issue_in-Keeps opaque o = search (keeps_rules, drawing)
  issue_in-Keeps jwt o = search (keeps_rules, drawing)

  pub issue-Keeps : (o : TokenOrder) → Keeps P (issue env o)
  unfolding issue
  issue-Keeps o = issue_in-Keeps env.token_format o

  module _
      (refreshing : (A : Type 0) (m : Flow (Dict RefreshToken) Exception A)
        → Keeps P (on_refresh_tokens m)) where
    pub minting-Keeps :
        (c : Client) (sub : String) (s : ScopeSet) (t : ℕ)
        → Keeps P (mint_refresh_token env c sub s t)
    unfolding mint_refresh_token
    minting-Keeps c sub s t = search (keeps_rules, drawing, refreshing) depth 9

    pub exchanging-Keeps :
        (r : TokenRequest) (c : Client) (k : RefreshToken) (t : ℕ)
        → Keeps P (RefreshToken.exchange env r c k t)
    unfolding RefreshToken.exchange
    exchanging-Keeps r c k t = search (keeps_rules, drawing, refreshing, issue-Keeps) depth 12

    pub refreshing-Keeps : (r : TokenRequest) (c : Client) → Keeps P (RefreshToken.execute env r c)
    unfolding RefreshToken.execute RefreshToken.present
    refreshing-Keeps r c =
        search (keeps_rules, required-Keeps, require_grant-Keeps, refreshing, exchanging-Keeps)
          depth 20

  module _
      (minting : (c : Client) (sub : String) (s : ScopeSet) (t : ℕ)
        → Keeps P (mint_refresh_token env c sub s t)) where
    pub mint_device_tokens-Keeps :
        (c : Client) (k : DeviceCode) (t : ℕ) → Keeps P (DeviceCode.mint_tokens env c k t)
    unfolding DeviceCode.mint_tokens
    mint_device_tokens-Keeps c k t = search (keeps_rules, minting, issue-Keeps) depth 12

    id_token-Keeps :
        (c : Client) (a : AuthorizationCode) (s : String) → Keeps P (Code.mint_id_token env c a s)
    unfolding Code.mint_id_token issue_id_token
    id_token-Keeps c a s = search keeps_rules depth 9

    pub mint_code_tokens-Keeps :
        (c : Client) (a : AuthorizationCode) → Keeps P (Code.mint_tokens env c a)
    unfolding Code.mint_tokens
    mint_code_tokens-Keeps c a = search (keeps_rules, minting, issue-Keeps, id_token-Keeps) depth 12

    module _
        (writing : (A : Type 0) (m : Flow DeviceCodes.Store Exception A)
          → Keeps P (on_device_codes m)) where
      poll-Keeps :
          (c : Client) (v : String) (k : DeviceCode) (t : ℕ) → Keeps P (DeviceCode.poll env c v k t)
      unfolding DeviceCode.poll
      poll-Keeps c v k t = search (keeps_rules, writing, mint_device_tokens-Keeps) depth 16

      pub polling-Keeps : (r : TokenRequest) (c : Client) → Keeps P (DeviceCode.execute env r c)
      unfolding DeviceCode.execute
      polling-Keeps r c =
          search (keeps_rules, required-Keeps, require_grant-Keeps, writing, poll-Keeps) depth 20

      pub deciding-Keeps : (d : DeviceConsentDecision) → Keeps P (device_consent env d)
      unfolding device_consent decide
      deciding-Keeps d = search (keeps_rules, writing) depth 16
