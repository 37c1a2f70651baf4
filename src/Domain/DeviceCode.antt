-- ===== src/Domain/DeviceCode.antt =====
-- oauth_lab/domain/model/device_code.py
use oauth_lab.Prelude.{
  ℕ, ◌+◌, ◌*◌, String, Option, none, some, Bool, true, false, not, ◌&&◌, leb, is_some,
}
use oauth_lab.Domain.Scope.{ScopeSet}
use oauth_lab.Domain.Client.{ClientId}

-- `timedelta(seconds=n)`, in microseconds
abbrev pub seconds : ℕ → ℕ
seconds n = n * 1000000

pub record DeviceCode : Type 0 where
  pub device_code : String
  pub user_code : String
  pub client_id : ClientId
  pub scope : ScopeSet
  pub issued_at : ℕ
  pub expires_at : ℕ
  pub interval : ℕ
  pub last_polled_at : Option ℕ
  pub user_sub : Option String
  pub denied : Bool
  pub redeemed_at : Option ℕ

unfoldable pub is_expired : DeviceCode → ℕ → Bool
is_expired c now = leb c.expires_at now

unfoldable pub is_pending : DeviceCode → Bool
is_pending c = not (is_some c.user_sub) && not c.denied

unfoldable pub is_approved : DeviceCode → Bool
is_approved c = is_some c.user_sub && not c.denied

unfoldable pub is_denied : DeviceCode → Bool
is_denied c = c.denied

unfoldable pub is_redeemed : DeviceCode → Bool
is_redeemed c = is_some c.redeemed_at

unfoldable pub can_poll_at : DeviceCode → ℕ → Bool
can_poll_at c now = elim c.last_polled_at [
  | none ↦ true
  | some polled ↦ leb (polled + seconds c.interval) now
]

unfoldable pub approve : DeviceCode → String → DeviceCode
approve c sub = record c { user_sub = some sub; denied = false }

unfoldable pub deny : DeviceCode → DeviceCode
deny c = record c { denied = true; user_sub = none }

unfoldable pub mark_polled : DeviceCode → ℕ → DeviceCode
mark_polled c now = record c { last_polled_at = some now }

unfoldable pub redeem : DeviceCode → ℕ → DeviceCode
redeem c now = record c { redeemed_at = some now }
