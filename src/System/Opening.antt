-- ===== src/System/Opening.antt =====
-- The request of a device code keeps an invariant that its steps keep.
use oauth_lab.Prelude.{ℕ, zero, suc}
use oauth_lab.Flow.Keeps.{Keeps, keeps_rules}
use oauth_lab.Domain.Client.{Client}
use oauth_lab.Domain.Scope.{ScopeSet}
use oauth_lab.Domain.DeviceCode.{DeviceCode}
use oauth_lab.Memory.DeviceCodes
use oauth_lab.Memory.Registry
use oauth_lab.World.{World, on_clients, on_device_codes, services}
use oauth_lab.World.Env.{Env}
use oauth_lab.World.Issuers.{now, token_urlsafe}
use oauth_lab.Token.{required}
use oauth_lab.Domain.Errors.{Exception}
use oauth_lab.Prelude.{String, Option, none, some}
use oauth_lab.Service.Device.{
  DeviceAuthorizationRequest, choose_letter, choose_letters, generate_user_code,
  request_device_authorization, open_code,
}

module _ {P : World → Type 0} where
  find-Keeps : (id : String) → Keeps P (on_clients (Registry.find_by_id id))
  unfolding services Registry.find_by_id
  find-Keeps id = record { from = λ w h. h }

  required-Keeps : (o : Option String) (e : Exception) → Keeps P (required o e)
  unfolding required
  required-Keeps none e = search keeps_rules
  required-Keeps (some s) e = search keeps_rules

module _ (env : Env) {P : World → Type 0} (choosing : Keeps P (choose_letter env)) where
  letters-Keeps : (n : ℕ) → Keeps P (choose_letters env n)
  unfolding choose_letters
  letters-Keeps zero = search keeps_rules
  letters-Keeps (suc n) = search (keeps_rules, choosing, letters-Keeps n)

  pub user_code-Keeps : Keeps P (generate_user_code env)
  unfolding generate_user_code
  user_code-Keeps = search (keeps_rules, letters-Keeps) depth 8

module _ (env : Env) {P : World → Type 0} (reading : Keeps P (now env))
    (drawing : (n : ℕ) → Keeps P (token_urlsafe env n)) (choosing : Keeps P (choose_letter env))
    (saving : (c : DeviceCode) → Keeps P (on_device_codes (DeviceCodes.save c))) where
  code-Keeps : Keeps P (generate_user_code env)
  code-Keeps = user_code-Keeps env choosing

  pub open_code-Keeps : (c : Client) (s : ScopeSet) → Keeps P (open_code env c s)
  unfolding open_code
  open_code-Keeps c s = search (keeps_rules, drawing, code-Keeps, saving) depth 12

module _ (env : Env) {P : World → Type 0}
    (opened : (c : Client) (s : ScopeSet) → Keeps P (open_code env c s)) where
  pub opening-Keeps :
      (r : DeviceAuthorizationRequest) → Keeps P (request_device_authorization env r)
  unfolding request_device_authorization
  opening-Keeps r = search (keeps_rules, find-Keeps, required-Keeps, opened) depth 20
