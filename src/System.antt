-- ===== src/System.antt =====
-- The server as a machine over its entry points: every request that the controllers pass on is an
-- event, in the order in which they are handled.
pub mod Preserve
pub mod History
pub mod Opening
pub mod Frames
pub mod Spent
pub mod SingleUse
pub mod Family
pub mod FamilyRevoked
pub mod FamilySteps
pub mod FamilyRequests
pub mod OneLive
pub mod CodeFlow
pub mod Redeemed
pub mod RedeemedSteps
pub mod RedeemedRequests
pub mod RedeemedOnce
use oauth_lab.Prelude.{String, Option, List, [], ◌∷◌}
use oauth_lab.Domain.Client.{GrantType}
use oauth_lab.ClientAuth.{ClientCredentials, Authenticator}
use oauth_lab.ClientAuth.Basic.{Decoder}
use oauth_lab.World.{World}
use oauth_lab.World.Env.{Env}
use oauth_lab.Token.{TokenRequest}
use oauth_lab.Service.IssueToken.{issue_token}
use oauth_lab.Service.Authorize.{AuthorizeRequest, authorize}
use oauth_lab.Service.Consent.{ConsentDecision, consent}
use oauth_lab.Service.Device.{
  DeviceAuthorizationRequest, DeviceConsentDecision, request_device_authorization,
  lookup_device_code, device_consent,
}
use oauth_lab.Service.Session.{login, user_info}

-- The wiring of container.py.
pub record Server : Type 0 where
  pub env : Env
  pub decoder : Decoder
  pub authenticators : List Authenticator
  pub grants : List GrantType

pub data Event : Type 0 where
  token : ClientCredentials → TokenRequest → Event
  authorization : AuthorizeRequest → Option String → Event
  consent_form : ConsentDecision → Event
  login_form : String → String → Event
  userinfo : String → Event
  device_authorization : DeviceAuthorizationRequest → Event
  device_page : String → Event
  device_form : DeviceConsentDecision → Event

-- the world that a request leaves, answered or refused
unfoldable pub handle : Server → Event → World → World
handle s (token creds request) w =
    (issue_token s.env s.decoder s.authenticators s.grants creds request w).1
handle s (authorization request session) w = (authorize s.env request session w).1
handle s (consent_form decision) w = (consent s.env decision w).1
handle s (login_form username password) w = (login s.env username password w).1
handle s (userinfo access_token) w = (user_info s.env access_token w).1
handle s (device_authorization request) w = (request_device_authorization s.env request w).1
handle s (device_page user_code) w = (lookup_device_code s.env user_code w).1
handle s (device_form decision) w = (device_consent s.env decision w).1

unfoldable pub run : Server → List Event → World → World
run s [] w = w
run s (e ∷ es) w = run s es (handle s e w)
