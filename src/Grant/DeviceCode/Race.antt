-- ===== src/Grant/DeviceCode/Race.antt =====
-- Repository calls of two polls of one device code, which may interleave between the await points
-- of device_code_grant.py.
use oauth_lab.Prelude.{ℕ, String, none, some, true, false, ◌≡◌, arith}
use oauth_lab.Flow.{ok, ◌>>=◌}
use oauth_lab.Dict
use oauth_lab.Dict.{get-put_self}
use oauth_lab.Domain.DeviceCode
use oauth_lab.Domain.DeviceCode.{DeviceCode, is_expired, is_redeemed, is_approved, mark_polled}
use oauth_lab.Memory.DeviceCodes.{Store, is_redeemable, redeem, save}

-- the store when a poll redeemed the code at `t` and another then saved what it had read before
abbrev pub after_stale_save : Store → String → DeviceCode → (t t' : ℕ) → Store
after_stale_save s v stale t t' = (save (mark_polled stale t') (redeem v t s).1).1

-- A device code that is stored under its own value and can be redeemed is redeemed by the first
-- call of `redeem`, and by none that follows on it, at whatever time.
pub redeem-once :
    (s : Store) (v : String) (code : DeviceCode) (t t' : ℕ)
    → Dict.get s.by_device_code v ≡ some code
    → code.device_code ≡ v
    → is_redeemable code t ≡ true
    → ((redeem v t s).0 ≡ ok (some (DeviceCode.redeem code t)))
      × ((redeem v t' (redeem v t s).1).0 ≡ ok none)
unfolding redeem ◌>>=◌ is_redeemable DeviceCode.redeem is_redeemed
redeem-once s v code t t' e n h =
    ground (arith, get-put_self s.by_device_code v (record code { redeemed_at = some t }))

-- Where a device code that is stored under its own value is redeemed, and another poll that read
-- it before then saves it as polled, a later call of `redeem` succeeds again, as long as the code
-- has not expired.
pub stale_save-redeems_twice :
    (s : Store) (v : String) (code : DeviceCode) (t t' t'' : ℕ)
    → Dict.get s.by_device_code v ≡ some code
    → code.device_code ≡ v
    → is_redeemable code t ≡ true
    → is_expired code t'' ≡ false
    → ((redeem v t s).0 ≡ ok (some (DeviceCode.redeem code t)))
      × ((redeem v t'' (after_stale_save s v code t t')).0
          ≡ ok (some (DeviceCode.redeem (mark_polled code t') t'')))
unfolding redeem save ◌>>=◌ is_redeemable DeviceCode.redeem is_redeemed mark_polled is_approved
    is_expired
stale_save-redeems_twice s v code t t' t'' e n h x = ground (
  arith,
  get-put_self (redeem v t s).1.by_device_code v (record code { last_polled_at = some t' }),
)
