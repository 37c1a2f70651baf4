-- ===== src/Rest/Device.antt =====
-- rest/device_authorization_controller.py: `POST /device_authorization`
use oauth_lab.Prelude.{[], ◌∷◌}
use oauth_lab.Flow.{pure, ◌>>=◌}
use oauth_lab.Dict.{Dict}
use oauth_lab.World.{Service}
use oauth_lab.World.Env.{Env}
use oauth_lab.Service.Device.{
  DeviceAuthorizationRequest, DeviceAuthorizationResponse, request_device_authorization,
}
use oauth_lab.Http.{Response, Value, string, number, json_response, no_store_headers}

abbrev pub device_body : DeviceAuthorizationResponse → Dict Value
device_body response =
    ("device_code", string response.device_code)
    ∷ ("user_code", string response.user_code)
    ∷ ("verification_uri", string response.verification_uri)
    ∷ ("verification_uri_complete", string response.verification_uri_complete)
    ∷ ("expires_in", number response.expires_in)
    ∷ ("interval", number response.interval)
    ∷ []

module _ (env : Env) where
  unfoldable pub device_authorization : DeviceAuthorizationRequest → Service Response
  device_authorization request = do
    response ← request_device_authorization env request
    pure (json_response 200 no_store_headers (device_body response))
