-- ===== src/Service/Device/Decided.antt =====
-- What the answer to the device consent form does.
use oauth_lab.Prelude.{
  ℕ, String, some, none, true, false, Bool, not, ◌&&◌, ◌≡◌, ap, ◌∙◌, arith, if◌then◌else◌,
}
use oauth_lab.Flow.{is_raised, ok, ◌>>=◌}
use oauth_lab.Flow.Inversion.{bind-ok, or_raise-some}
use oauth_lab.Dict
use oauth_lab.Domain.DeviceCode.{DeviceCode, is_expired, is_pending, approve, deny}
use oauth_lab.Memory.DeviceCodes
use oauth_lab.World.{World, on_device_codes, services}
use oauth_lab.World.Env.{Env}
use oauth_lab.World.Issuers.{now}
use oauth_lab.Service.Device.{DeviceConsentDecision, device_consent, decide}

-- the code after the decision
abbrev pub decided : DeviceCode → DeviceConsentDecision → DeviceCode
decided code decision =
    if decision.approved
    then record code { user_sub = some decision.user_sub; denied = false }
    else record code { user_sub = none; denied = true }

-- the store with that code under both of its keys
abbrev pub decided_store :
    DeviceCodes.Store → DeviceCode → DeviceConsentDecision → DeviceCodes.Store
decided_store s code decision = record {
  by_device_code = Dict.put s.by_device_code code.device_code (decided code decision);
  by_user_code = Dict.put s.by_user_code code.user_code code.device_code;
}

-- a decision is taken on it
abbrev pub is_open : DeviceCode → ℕ → Bool
is_open code t = is_pending code && not (is_expired code t)

find_by_user_code-ok :
    (s : DeviceCodes.Store) (user_code v : String) (code : DeviceCode)
    → Dict.get s.by_user_code user_code ≡ some v
    → Dict.get s.by_device_code v ≡ some code
    → DeviceCodes.find_by_user_code user_code s ≡ (ok (some code), s)
unfolding DeviceCodes.find_by_user_code ◌>>=◌
find_by_user_code-ok s user_code v code u d = ground arith

module _ (env : Env) where
  found-ok :
      (decision : DeviceConsentDecision) (w : World) (v : String) (code : DeviceCode)
      → Dict.get w.device_codes.by_user_code decision.user_code ≡ some v
      → Dict.get w.device_codes.by_device_code v ≡ some code
      → on_device_codes (DeviceCodes.find_by_user_code decision.user_code) w ≡ (ok (some code), w)
  unfolding services
  found-ok decision w v code u d =
      ap (λ p. (p.0, record w { device_codes = p.1 }))
        (find_by_user_code-ok w.device_codes decision.user_code v code u d)

  device_consent-decide :
      (decision : DeviceConsentDecision) (w : World) (v : String) (code : DeviceCode)
      → Dict.get w.device_codes.by_user_code decision.user_code ≡ some v
      → Dict.get w.device_codes.by_device_code v ≡ some code
      → device_consent env decision w ≡ decide env decision code w
  unfolding device_consent
  device_consent-decide decision w v code u d =
      bind-ok _ _ (found-ok decision w v code u d) ∙ or_raise-some _ code _

  decide-result :
      (decision : DeviceConsentDecision) (w : World) (code : DeviceCode)
      → let after = decide env decision code w in
        let t = env.now_at w.reads in
        (is_raised after.0 ≡ not (is_open code t))
        × (after.1.device_codes ≡ (
            if is_open code t then decided_store w.device_codes code decision else w.device_codes))
  unfolding services decide now DeviceCodes.save approve deny
  decide-result decision w code = ground arith

  -- A device code is decided once, and in time: where the user code of the form leads to a stored
  -- code, the form is accepted exactly when that code is pending and not expired. Then the
  -- decision is stored, and otherwise the store of device codes stays as it is.
  pub device_consent-decides :
      (decision : DeviceConsentDecision) (w : World) (v : String) (code : DeviceCode)
      → Dict.get w.device_codes.by_user_code decision.user_code ≡ some v
      → Dict.get w.device_codes.by_device_code v ≡ some code
      → let after = device_consent env decision w in
        let t = env.now_at w.reads in
        (is_raised after.0 ≡ not (is_open code t))
        × (after.1.device_codes ≡ (
            if is_open code t then decided_store w.device_codes code decision else w.device_codes))
  device_consent-decides decision w v code u d =
      let same = device_consent-decide decision w v code u d in
      let (answer, store) = decide-result decision w code in
      (ap (λ p. is_raised p.0) same ∙ answer, ap (λ p. p.1.device_codes) same ∙ store)
