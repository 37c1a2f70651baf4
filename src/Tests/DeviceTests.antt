-- ===== src/Tests/DeviceTests.antt =====
-- Examples of the device flow.
use oauth_lab.Prelude.{some, true, false, not, ◌≡◌, refl, if◌then◌else◌}
use oauth_lab.Flow.{is_raised, ok, raised}
use oauth_lab.Dict
use oauth_lab.Domain.Client.{device_code, supports_grant}
use oauth_lab.Domain.Errors.{failure, authorization_pending}
use oauth_lab.Domain.DeviceCode
use oauth_lab.Domain.DeviceCode.{is_approved, is_redeemed, is_expired, can_poll_at, mark_polled}
use oauth_lab.Memory.DeviceCodes
use oauth_lab.Token.{TokenRequest}
use oauth_lab.World.{World}
use oauth_lab.Grant.DeviceCode.{execute, poll}
use oauth_lab.Grant.DeviceCode.Redemption.{
  verdict, refused_store, execute-redemption, poll-refused, poll-granted,
}
use oauth_lab.Grant.DeviceCode.Race.{after_stale_save, stale_save-redeems_twice}
use oauth_lab.Service.Device.{DeviceConsentDecision, device_consent}
use oauth_lab.Service.Device.Decided.{decided_store, is_open, device_consent-decides}
use oauth_lab.Tests.{program, env, client, world, approved_code, pending_code, request_for, answer}

abbrev request : TokenRequest
request = request_for device_code

abbrev after : World
after = (execute env request client world).1

redeemed : execute env request client world ≡ (ok answer, after)
unfolding program
redeemed = refl

abbrev decision : DeviceConsentDecision
decision = record { user_code = "XXXX-XXXX"; user_sub = "user-1"; approved = true }

execute-redemption_example :
    let t = env.now_at world.reads in
    (supports_grant client device_code ≡ true)
    × (approved_code.client_id ≡ client.id)
    × (is_expired approved_code t ≡ false)
    × (is_approved approved_code ≡ true)
    × (is_redeemed approved_code ≡ false)
    × (can_poll_at approved_code t ≡ true)
    × (answer.scope ≡ some approved_code.scope)
    × (after.device_codes ≡ record world.device_codes {
      by_device_code =
          Dict.put world.device_codes.by_device_code approved_code.device_code
            (record approved_code { redeemed_at = some t });
    })
unfolding program
execute-redemption_example =
    execute-redemption env request client world after "d1" approved_code answer refl refl redeemed

poll-refused_example : poll env client "d2" pending_code 1000 world ≡ (
  raised (failure authorization_pending "user has not yet approved"),
  record world {
    device_codes =
        refused_store env world.device_codes pending_code 1000 (verdict pending_code 1000);
  },
)
unfolding program verdict
poll-refused_example =
    poll-refused env client "d2" pending_code 1000 world
      (failure authorization_pending "user has not yet approved") refl refl

poll-granted_example : is_raised (poll env client "d1" approved_code 1000 world).0 ≡ false
unfolding program verdict
poll-granted_example = poll-granted env client "d1" approved_code 1000 world refl refl

stale_save-redeems_twice_example :
    ((DeviceCodes.redeem "d1" 1000 world.device_codes).0
      ≡ ok (some (DeviceCode.redeem approved_code 1000)))
    × ((DeviceCodes.redeem "d1" 1002
          (after_stale_save world.device_codes "d1" approved_code 1000 1001)).0
        ≡ ok (some (DeviceCode.redeem (mark_polled approved_code 1001) 1002)))
unfolding program
stale_save-redeems_twice_example =
    stale_save-redeems_twice world.device_codes "d1" approved_code 1000 1001 1002 refl refl refl
      refl

device_consent-decides_example :
    let result = device_consent env decision world in
    let t = env.now_at world.reads in
    (is_raised result.0 ≡ not (is_open pending_code t))
    × (result.1.device_codes ≡ (
        if is_open pending_code t
        then decided_store world.device_codes pending_code decision
        else world.device_codes))
unfolding program
device_consent-decides_example =
    device_consent-decides env decision world "d2" pending_code refl refl
