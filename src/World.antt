-- ===== src/World.antt =====
-- The state that the services share: the repositories of container.py, and how often the clock and
-- the random source have been read (adapter/outbound/time/system_clock.py and
-- random/secure_random_source.py). The n-th reading and the n-th draw are parameters.
pub mod Env
pub mod Issuers
pub mod Frame
use oauth_lab.Prelude.{ℕ, ◌+◌, String, Option}
use oauth_lab.Flow.{Flow, zoom, ◌>>=◌}
use oauth_lab.Dict.{Dict}
use oauth_lab.Domain.Errors.{Exception}
use oauth_lab.Domain.AuthorizationCode.{AuthorizationCode}
use oauth_lab.Domain.RefreshToken.{RefreshToken}
use oauth_lab.Domain.Client.{Client, User, TrustedAssertionIssuer}
use oauth_lab.Memory.DeviceCodes

pub record World : Type 0 where
  pub clients : Dict Client
  pub users : Dict User
  pub trusted_issuers : Dict TrustedAssertionIssuer
  pub auth_codes : Dict AuthorizationCode
  pub refresh_tokens : Dict RefreshToken
  pub device_codes : DeviceCodes.Store
  pub reads : ℕ
  pub draws : ℕ

-- a method of a service: it works on the world and may raise
abbrev pub Service : Type 0 → Type 0
Service A = Flow World Exception A

module _ {A : Type 0} where
  unfoldable pub on_clients : Flow (Dict Client) Exception A → Service A
  unfolding zoom
  on_clients = zoom (λ w. w.clients) (λ s w. record w { clients = s })

  unfoldable pub on_users : Flow (Dict User) Exception A → Service A
  unfolding zoom
  on_users = zoom (λ w. w.users) (λ s w. record w { users = s })

  unfoldable pub on_issuers : Flow (Dict TrustedAssertionIssuer) Exception A → Service A
  unfolding zoom
  on_issuers = zoom (λ w. w.trusted_issuers) (λ s w. record w { trusted_issuers = s })

  unfoldable pub on_auth_codes : Flow (Dict AuthorizationCode) Exception A → Service A
  unfolding zoom
  on_auth_codes = zoom (λ w. w.auth_codes) (λ s w. record w { auth_codes = s })

  unfoldable pub on_refresh_tokens : Flow (Dict RefreshToken) Exception A → Service A
  unfolding zoom
  on_refresh_tokens = zoom (λ w. w.refresh_tokens) (λ s w. record w { refresh_tokens = s })

  unfoldable pub on_device_codes : Flow DeviceCodes.Store Exception A → Service A
  unfolding zoom
  on_device_codes = zoom (λ w. w.device_codes) (λ s w. record w { device_codes = s })

-- To unfold `services` is to unfold the combinators of every method over the world.
unfoldable pub services : Unit {0}
unfolding ◌>>=◌ on_clients on_users on_issuers on_auth_codes on_refresh_tokens on_device_codes
services = tt
