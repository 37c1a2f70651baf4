-- ===== src/Grant/DeviceCode.antt =====
-- application/service/grant/device_code_grant.py
pub mod Redemption
pub mod Race
use oauth_lab.Prelude.{ℕ, String, none, some, not, ◌==◌, if◌then◌else◌}
use oauth_lab.Flow.{pure, raise, guard, or_raise, ◌>>=◌, ◌>>◌}
use oauth_lab.Domain.Errors.{
  failure, assertion_error, invalid_request, invalid_grant, expired_token, access_denied, slow_down,
  authorization_pending,
}
use oauth_lab.Domain.Client.{Client, device_code}
use oauth_lab.Domain.DeviceCode.{
  DeviceCode, is_expired, is_denied, is_pending, can_poll_at, mark_polled,
}
use oauth_lab.Memory.DeviceCodes
use oauth_lab.World.{Service, on_device_codes}
use oauth_lab.World.Env.{Env}
use oauth_lab.World.Issuers.{now, issue}
use oauth_lab.Token.{TokenRequest, TokenIssuanceResult, required, require_grant, mint_refresh_token}

module _ (env : Env) where
  -- what follows a successful `redeem()`
  unfoldable pub mint_tokens : Client → DeviceCode → ℕ → Service TokenIssuanceResult
  mint_tokens client redeemed t = do
    user_sub ← or_raise redeemed.user_sub assertion_error
    access ← issue env (record {
      subject = user_sub;
      client_id = client.id;
      scope = redeemed.scope;
      audience = client.default_audience;
      ttl_seconds = env.access_token_ttl;
    })
    refresh ← mint_refresh_token env client user_sub redeemed.scope t
    pure (record {
      access_token = access.value;
      token_type = "Bearer";
      expires_in = access.expires_in_seconds;
      scope = some redeemed.scope;
      refresh_token = refresh;
      id_token = none;
      issued_token_type = none;
    })

  -- the poll of a code that belongs to the client
  unfoldable pub poll : Client → String → DeviceCode → ℕ → Service TokenIssuanceResult
  poll client value code t =
      if is_expired code t
      then raise (failure expired_token "device code has expired")
      else if is_denied code
      then raise (failure access_denied "user denied the authorization request")
      else if not (can_poll_at code t)
      then (do
        on_device_codes (DeviceCodes.save (mark_polled code t))
        raise (failure slow_down "polling faster than the AS-mandated interval"))
      else if is_pending code
      then (do
        on_device_codes (DeviceCodes.save (mark_polled code t))
        raise (failure authorization_pending "user has not yet approved"))
      else (do
        found ← on_device_codes (DeviceCodes.redeem value t)
        redeemed ← or_raise found (failure invalid_grant "device code already redeemed")
        mint_tokens client redeemed t)

  unfoldable pub execute : TokenRequest → Client → Service TokenIssuanceResult
  execute request client = do
    require_grant client device_code
    value ← required request.device_code (failure invalid_request "'device_code' is required")
    found ← on_device_codes (DeviceCodes.find_by_device_code value)
    code ← or_raise found (failure invalid_grant "device code not found")
    guard (code.client_id == client.id)
        (failure invalid_grant "device code was issued to a different client")
    t ← now env
    poll client value code t
