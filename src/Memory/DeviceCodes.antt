-- ===== src/Memory/DeviceCodes.antt =====
-- memory/device_code_repository.py
use oauth_lab.Prelude.{ℕ, String, Option, none, some, Bool, not, ◌||◌, if◌then◌else◌}
use oauth_lab.Flow.{Flow, pure, gets, modify, ◌>>=◌, ◌>>◌}
use oauth_lab.Dict
use oauth_lab.Dict.{Dict}
use oauth_lab.Domain.Errors.{Exception}
use oauth_lab.Domain.DeviceCode
use oauth_lab.Domain.DeviceCode.{DeviceCode, is_approved, is_redeemed, is_expired}

pub record Store : Type 0 where
  pub by_device_code : Dict DeviceCode
  pub by_user_code : Dict String

unfoldable pub save : DeviceCode → Flow Store Exception Unit
save code = do
  modify (λ s. record s { by_device_code = Dict.put s.by_device_code code.device_code code })
  modify (λ s. record s { by_user_code = Dict.put s.by_user_code code.user_code code.device_code })

-- the test of `redeem`
unfoldable pub is_redeemable : DeviceCode → ℕ → Bool
is_redeemable code now = not (not (is_approved code) || is_redeemed code || is_expired code now)

abbrev redeem_found : String → ℕ → Option DeviceCode → Flow Store Exception (Option DeviceCode)
redeem_found device_code now none = pure none
redeem_found device_code now (some code) =
    if is_redeemable code now
    then (do
      let redeemed = DeviceCode.redeem code now
      modify (λ s. record s {
        by_device_code = Dict.put s.by_device_code redeemed.device_code redeemed;
      })
      pure (some redeemed))
    else pure none

unfoldable pub redeem : String → ℕ → Flow Store Exception (Option DeviceCode)
redeem device_code now = do
  found ← gets (λ s. Dict.get s.by_device_code device_code)
  redeem_found device_code now found

unfoldable pub find_by_device_code : String → Flow Store Exception (Option DeviceCode)
find_by_device_code device_code = gets (λ s. Dict.get s.by_device_code device_code)

abbrev pub follow : Store → Option String → Option DeviceCode
follow s none = none
follow s (some device_code) = Dict.get s.by_device_code device_code

unfoldable pub find_by_user_code : String → Flow Store Exception (Option DeviceCode)
find_by_user_code user_code = gets (λ s. follow s (Dict.get s.by_user_code user_code))
