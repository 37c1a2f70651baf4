-- ===== src/Grant/RefreshToken.antt =====
-- application/service/grant/refresh_token_grant.py
pub mod Replay
pub mod Rotation
use oauth_lab.Prelude.{ℕ, ◌+◌, none, some, not, ◌==◌, if◌then◌else◌}
use oauth_lab.Flow.{Outcome, ok, raised, pure, raise, lift, guard, or_raise, ◌>>=◌, ◌>>◌}
use oauth_lab.Domain.Errors.{Exception, failure, invalid_request, invalid_grant, invalid_scope}
use oauth_lab.Domain.Scope.{ScopeSet, is_empty, is_subset_of, intersect}
use oauth_lab.Domain.Client.{Client, refresh_token}
use oauth_lab.Domain.RefreshToken.{RefreshToken, is_consumed, is_expired}
use oauth_lab.Domain.DeviceCode.{seconds}
use oauth_lab.Memory.RefreshTokens
use oauth_lab.World.{Service, on_refresh_tokens}
use oauth_lab.World.Env.{Env}
use oauth_lab.World.Issuers.{now, issue, token_urlsafe}
use oauth_lab.Token.{TokenRequest, TokenIssuanceResult, required, require_grant}

-- the scope of the new tokens
unfoldable pub narrow : ScopeSet → ScopeSet → Outcome Exception ScopeSet
narrow requested held =
    if not (is_empty requested)
    then (if not (is_subset_of requested held)
        then raised (failure invalid_scope "requested scope exceeds the originally granted scope")
        else ok (intersect requested held))
    else ok held

module _ (env : Env) where
  -- the rotation, and the access token that follows it
  unfoldable pub exchange : TokenRequest → Client → RefreshToken → ℕ → Service TokenIssuanceResult
  exchange request client token t = do
    granted_scope ← lift (narrow request.scope token.scope)
    value ← token_urlsafe env 32
    on_refresh_tokens (
        RefreshTokens.rotate token.value
          (record {
            value = value;
            family_id = token.family_id;
            client_id = token.client_id;
            user_sub = token.user_sub;
            scope = granted_scope;
            issued_at = t;
            expires_at = t + seconds env.refresh_token_ttl;
            consumed_at = none;
          })
          t)
    access ← issue env (record {
      subject = token.user_sub;
      client_id = client.id;
      scope = granted_scope;
      audience = client.default_audience;
      ttl_seconds = env.access_token_ttl;
    })
    pure (record {
      access_token = access.value;
      token_type = "Bearer";
      expires_in = access.expires_in_seconds;
      scope = some granted_scope;
      refresh_token = some value;
      id_token = none;
      issued_token_type = none;
    })

  -- the tests on the token that was found: a consumed one revokes its family
  unfoldable pub present : TokenRequest → Client → RefreshToken → ℕ → Service TokenIssuanceResult
  present request client token t =
      if is_consumed token
      then (do
        on_refresh_tokens (RefreshTokens.revoke_family token.family_id t)
        raise (
            failure invalid_grant
              "refresh token replay detected; the token chain has been revoked"))
      else if is_expired token t
      then raise (failure invalid_grant "refresh token has expired")
      else exchange request client token t

  unfoldable pub execute : TokenRequest → Client → Service TokenIssuanceResult
  execute request client = do
    require_grant client refresh_token
    value ← required request.refresh_token (failure invalid_request "'refresh_token' is required")
    found ← on_refresh_tokens (RefreshTokens.find_by_value value)
    token ← or_raise found (failure invalid_grant "refresh token not found")
    guard (token.client_id == client.id)
        (failure invalid_grant "refresh token was issued to a different client")
    t ← now env
    present request client token t
