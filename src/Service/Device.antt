-- ===== src/Service/Device.antt =====
-- The device flow outside `/token`: request_device_authorization_service.py,
-- lookup_device_code_service.py and device_consent_service.py of application/service, and
-- adapter/outbound/random/user_code_generator.py.
pub mod Decided
pub mod UserCodes
use Prim.Native.String.{◌++◌}
use oauth_lab.Prelude.{
  ℕ, zero, suc, ◌+◌, String, Option, none, some, Bool, List, not, sorted, if◌then◌else◌,
}
use oauth_lab.Flow.{pure, lift, guard, or_raise, ◌>>=◌, ◌>>◌}
use oauth_lab.Domain.Errors.{
  failure, invalid_request, invalid_client, unauthorized_client, expired_token, invalid_grant,
}
use oauth_lab.Domain.Scope.{ScopeSet}
use oauth_lab.Domain.Client.{Client, client_id, supports_grant, device_code}
use oauth_lab.Domain.DeviceCode.{DeviceCode, seconds, is_expired, is_pending, approve, deny}
use oauth_lab.Memory.DeviceCodes
use oauth_lab.Memory.Registry
use oauth_lab.World.{Service, on_clients, on_device_codes}
use oauth_lab.World.Env.{Env}
use oauth_lab.World.Issuers.{now, token_urlsafe}
use oauth_lab.Service.Consent.{granted_scope}
use oauth_lab.Token.{required}

pub record DeviceAuthorizationRequest : Type 0 where
  pub client_id : Option String
  pub scope : Option String

pub record DeviceAuthorizationResponse : Type 0 where
  pub device_code : String
  pub user_code : String
  pub verification_uri : String
  pub verification_uri_complete : String
  pub expires_in : ℕ
  pub interval : ℕ

pub record DeviceCodeView : Type 0 where
  pub user_code : String
  pub client_id : String
  pub requested_scopes : List String
  pub expired : Bool
  pub already_decided : Bool

pub record DeviceConsentDecision : Type 0 where
  pub user_code : String
  pub user_sub : String
  pub approved : Bool

abbrev pub alphabet : String
alphabet = "BCDFGHJKLMNPQRSTVWXZ"

-- the text of the character at an index, empty past the end
unfoldable pub letter_at : String → ℕ → String
letter_at String.[] i = ""
letter_at (String.◌∷◌ c s) zero = String.◌∷◌ c ""
letter_at (String.◌∷◌ c s) (suc i) = letter_at s i

module _ (env : Env) where
  -- `secrets.choice(_ALPHABET)`
  unfoldable pub choose_letter : Service String
  choose_letter w =
      pure (letter_at alphabet (env.below_at w.draws 20)) (record w { draws = w.draws + 1 })

  unfoldable pub choose_letters : ℕ → Service String
  choose_letters zero = pure ""
  choose_letters (suc n) = do c ← choose_letter; rest ← choose_letters n; pure (c ++ rest)

  -- `SecureUserCodeGenerator.generate`
  unfoldable pub generate_user_code : Service String
  generate_user_code = do
    front ← choose_letters 4
    back ← choose_letters 4
    pure (front ++ "-" ++ back)

  -- the part once the client and the scope are settled
  unfoldable pub open_code : Client → ScopeSet → Service DeviceAuthorizationResponse
  open_code client scope = do
    t ← now env
    device_code_value ← token_urlsafe env 32
    user_code_value ← generate_user_code
    on_device_codes (
        DeviceCodes.save (record {
          device_code = device_code_value;
          user_code = user_code_value;
          client_id = client.id;
          scope = scope;
          issued_at = t;
          expires_at = t + seconds env.device_code_ttl;
          interval = env.polling_interval;
          last_polled_at = none;
          user_sub = none;
          denied = Bool.false;
          redeemed_at = none;
        }))
    pure (record {
      device_code = device_code_value;
      user_code = user_code_value;
      verification_uri = env.verification_uri;
      verification_uri_complete = env.verification_uri ++ "?user_code=" ++ user_code_value;
      expires_in = env.device_code_ttl;
      interval = env.polling_interval;
    })

  -- `RequestDeviceAuthorizationService.execute`
  unfoldable pub request_device_authorization :
      DeviceAuthorizationRequest → Service DeviceAuthorizationResponse
  request_device_authorization request = do
    id ← required request.client_id (failure invalid_request "client_id is required")
    key ← lift (client_id id)
    found ← on_clients (Registry.find_by_id key)
    client ← or_raise found (failure invalid_client "unknown client_id")
    guard (supports_grant client device_code)
        (failure unauthorized_client "client is not allowed to use the device_code grant")
    scope ← lift (
        granted_scope request.scope client.allowed_scopes
          "requested scope contains values not allowed for this client")
    open_code client scope

  abbrev pub view : Option DeviceCode → Service (Option DeviceCodeView)
  view none = pure none
  view (some code) = do
    t ← now env
    pure (
        some (record {
          user_code = code.user_code;
          client_id = code.client_id;
          requested_scopes = sorted code.scope.scopes;
          expired = is_expired code t;
          already_decided = not (is_pending code);
        }))

  -- `LookupDeviceCodeService.execute`
  unfoldable pub lookup_device_code : String → Service (Option DeviceCodeView)
  lookup_device_code user_code = do
    found ← on_device_codes (DeviceCodes.find_by_user_code user_code)
    view found

  -- the part once the code is found
  unfoldable pub decide : DeviceConsentDecision → DeviceCode → Service Unit
  decide decision code = do
    t ← now env
    guard (not (is_expired code t)) (failure expired_token "device code has expired")
    guard (is_pending code) (failure invalid_grant "device code has already been decided")
    on_device_codes
        (DeviceCodes.save (if decision.approved then approve code decision.user_sub else deny code))

  -- `DeviceConsentService.execute`
  unfoldable pub device_consent : DeviceConsentDecision → Service Unit
  device_consent decision = do
    found ← on_device_codes (DeviceCodes.find_by_user_code decision.user_code)
    code ← or_raise found (failure invalid_request "unknown user_code")
    decide decision code
