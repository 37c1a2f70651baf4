-- ===== src/System/RedeemedRequests.antt =====
-- Every request keeps a redeemed device code redeemed.
use oauth_lab.Prelude.{ℕ, ◌+◌, String, Option, none, some, Bool, ◌≡◌, ◌≢◌, arith, refl, ap, ◌∙◌}
use oauth_lab.Flow.{guard, or_raise, ◌>>=◌}
use oauth_lab.Flow.Keeps.{Keeps, Leads, bind-Keeps, bind-Leads, pure-Keeps, guard-Keeps}
use oauth_lab.Dict
use oauth_lab.Dict.{Dict, get-put}
use oauth_lab.Domain.Errors.{Exception}
use oauth_lab.Domain.Scope.{ScopeSet}
use oauth_lab.Domain.Client.{Client}
use oauth_lab.Domain.DeviceCode.{DeviceCode}
use oauth_lab.Memory.DeviceCodes
use oauth_lab.Memory.DeviceCodes.{follow}
use oauth_lab.World.{World, Service, on_device_codes, services}
use oauth_lab.World.Env.{Env}
use oauth_lab.World.Issuers.{token_urlsafe}
use oauth_lab.Token.{TokenRequest}
use oauth_lab.Grant.DeviceCode as Grant
use oauth_lab.Service.Device.{DeviceConsentDecision, open_code, device_consent}
use oauth_lab.System.Spent.{NeverDrawn}
use oauth_lab.System.Opening.{user_code-Keeps}
use oauth_lab.System.Frames.{minting-Keeps}
use oauth_lab.System.Frames.{refreshing-Keeps, required-Keeps, require_grant-Keeps}
use oauth_lab.System.Opening.{opening-Keeps}
use oauth_lab.System.Preserve.{StepsKeep}
use oauth_lab.Memory.AuthorizationCodes
use oauth_lab.System.RedeemedSteps.{
  now-Closed, draw-Closed, choose-Closed, refresh-Closed, auth-Closed, now-Holding,
  grant_code-Closed, save-Closed, closed, poll-Leads, decide-Leads, Closed, Holding,
}

module _ (env : Env) (v : String) (start : ℕ) where
  -- a lookup, and what follows on the record that it found
  or_raise-Closed :
      {A : Type 0} (o : Option DeviceCode) (e : Exception) (f : DeviceCode → Service A) (w : World)
      → ((k : DeviceCode) → Leads (Holding v start k) (Closed v start) (f k))
      → ((k : DeviceCode)
          → o ≡ some k
          → Dict.get w.device_codes.by_device_code k.device_code ≡ some k)
      → Closed v start w
      → Closed v start ((or_raise o e >>= f) w).1
  unfolding ◌>>=◌
  or_raise-Closed none e f w kf st h = h
  or_raise-Closed (some k) e f w kf st h = (kf k).from w (h, st k refl)

  held-by_device_code :
      (u : String) (w : World) (k : DeviceCode)
      → Closed v start w
      → Dict.get w.device_codes.by_device_code u ≡ some k
      → Dict.get w.device_codes.by_device_code k.device_code ≡ some k
  held-by_device_code u w k h e =
      ap (Dict.get w.device_codes.by_device_code) (h.store.keyed u k e) ∙ e

  find_device-Closed :
      {A : Type 0} (u : String) (e : Exception) (f : DeviceCode → Service A)
      → ((k : DeviceCode) → Leads (Holding v start k) (Closed v start) (f k))
      → Keeps
          (Closed v start)
          (on_device_codes (DeviceCodes.find_by_device_code u) >>= λ o. or_raise o e >>= f)
  unfolding services DeviceCodes.find_by_device_code
  find_device-Closed u e f kf = record {
    from = λ w h.
        or_raise-Closed (Dict.get w.device_codes.by_device_code u) e f w kf
          (λ k q. held-by_device_code u w k h q) h;
  }

  follow-held :
      (o : Option String) (w : World) (k : DeviceCode)
      → Closed v start w
      → follow w.device_codes o ≡ some k
      → Dict.get w.device_codes.by_device_code k.device_code ≡ some k
  follow-held none w k h e = cc
  follow-held (some u) w k h e = held-by_device_code u w k h e

  find_user-Closed :
      {A : Type 0} (u : String) (e : Exception) (f : DeviceCode → Service A)
      → ((k : DeviceCode) → Leads (Holding v start k) (Closed v start) (f k))
      → Keeps
          (Closed v start)
          (on_device_codes (DeviceCodes.find_by_user_code u) >>= λ o. or_raise o e >>= f)
  unfolding services DeviceCodes.find_by_user_code
  find_user-Closed u e f kf = record {
    from = λ w h.
        or_raise-Closed (follow w.device_codes (Dict.get w.device_codes.by_user_code u)) e f w kf
          (λ k q. follow-held (Dict.get w.device_codes.by_user_code u) w k h q) h;
  }

  guard-Holding :
      (k : DeviceCode) (b : Bool) (e : Exception) → Keeps (Holding v start k) (guard b e)
  guard-Holding k b e = guard-Keeps b e

  polling-Closed : (r : TokenRequest) (c : Client) → Keeps (Closed v start) (Grant.execute env r c)
  unfolding Grant.execute
  polling-Closed r c = bind-Keeps _ _ (require_grant-Keeps c _) (λ _.
      bind-Keeps _ _ (required-Keeps r.device_code _) (λ u. find_device-Closed u _ _ (λ k.
        bind-Leads _ _ ((closed env v start) k) (guard-Holding k _ _) (λ _.
          bind-Leads _ _ ((closed env v start) k) ((now-Holding env v start) k)
            (λ t. (poll-Leads env v start) c u k t)))))

  deciding-Closed : (d : DeviceConsentDecision) → Keeps (Closed v start) (device_consent env d)
  unfolding device_consent
  deciding-Closed d = find_user-Closed d.user_code _ _ ((decide-Leads env v start) d)

  draw-then :
      {A : Type 0} (f : String → Service A)
      → NeverDrawn env v start
      → ((value : String) → value ≢ v → Keeps (Closed v start) (f value))
      → Keeps (Closed v start) (token_urlsafe env 32 >>= f)
  unfolding ◌>>=◌ token_urlsafe
  draw-then f fresh kf = record {
    from = λ w h.
        (kf (env.token_at w.draws 32) (fresh w.draws h.drawn)).from
          (record w { draws = w.draws + 1 }) (record { drawn = ground arith; store = h.store });
  }

  open_code-Closed :
      NeverDrawn env v start
      → (c : Client) (s : ScopeSet) → Keeps (Closed v start) (open_code env c s)
  unfolding open_code
  open_code-Closed fresh c s = bind-Keeps _ _ (now-Closed env v start) (λ t.
      draw-then _ fresh (λ value other.
        bind-Keeps _ _ (user_code-Keeps env (choose-Closed env v start)) (λ u.
          bind-Keeps _ _ ((save-Closed env v start) _ (λ e. absurd (other e)))
            (λ _. pure-Keeps _))))

  pub Closed-StepsKeep : NeverDrawn env v start → StepsKeep env (Closed v start)
  Closed-StepsKeep fresh = record {
    reading = (now-Closed env v start);
    drawing = (draw-Closed env v start);
    consuming = λ u t. (auth-Closed env v start) _ (AuthorizationCodes.consume u t);
    minting =
        minting-Keeps env (now-Closed env v start) (draw-Closed env v start)
          (refresh-Closed env v start);
    refreshing =
        refreshing-Keeps env (now-Closed env v start) (draw-Closed env v start)
          (refresh-Closed env v start);
    polling = polling-Closed;
    granting = (grant_code-Closed env v start);
    opening = opening-Keeps env (open_code-Closed fresh);
    deciding = deciding-Closed;
  }
