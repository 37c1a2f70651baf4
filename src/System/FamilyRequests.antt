-- ===== src/System/FamilyRequests.antt =====
-- Every request keeps at most one live token in each family of refresh tokens.
use oauth_lab.Prelude.{String, Option, none, some, Bool, ◌≡◌, refl, ap, ◌∙◌}
use oauth_lab.Flow.{guard, or_raise, ◌>>=◌}
use oauth_lab.Flow.Keeps.{Keeps, Leads, bind-Keeps, bind-Leads, guard-Keeps}
use oauth_lab.Dict
use oauth_lab.Dict.{Dict}
use oauth_lab.Domain.Errors.{Exception}
use oauth_lab.Domain.Client.{Client}
use oauth_lab.Domain.RefreshToken.{RefreshToken}
use oauth_lab.Memory.AuthorizationCodes
use oauth_lab.Memory.RefreshTokens
use oauth_lab.Memory.DeviceCodes
use oauth_lab.World.{World, Service, on_refresh_tokens, services}
use oauth_lab.World.Env.{Env}
use oauth_lab.Token.{TokenRequest}
use oauth_lab.Grant.RefreshToken as Grant
use oauth_lab.System.Preserve.{StepsKeep}
use oauth_lab.System.Opening.{open_code-Keeps, opening-Keeps}
use oauth_lab.System.Frames.{polling-Keeps, deciding-Keeps, required-Keeps, require_grant-Keeps}
use oauth_lab.System.Family.{NeverRepeats}
use oauth_lab.System.FamilySteps.{
  Single, Held, now-Single, draw-Single, choose-Single, auth-Single, device-Single,
  grant_code-Single, minting-Single, held, now-Held, present-Single,
}

module _ (env : Env) where
  or_raise-Single :
      {A : Type 0} (o : Option RefreshToken) (e : Exception) (f : RefreshToken → Service A)
      (w : World)
      → ((k : RefreshToken) → Leads ((Held env) k) (Single env) (f k))
      → ((k : RefreshToken) → o ≡ some k → Dict.get w.refresh_tokens k.value ≡ some k)
      → (Single env) w
      → (Single env) ((or_raise o e >>= f) w).1
  unfolding ◌>>=◌
  or_raise-Single none e f w kf st h = h
  or_raise-Single (some k) e f w kf st h = (kf k).from w (h, st k refl)

  find-Single :
      {A : Type 0} (v : String) (e : Exception) (f : RefreshToken → Service A)
      → ((k : RefreshToken) → Leads ((Held env) k) (Single env) (f k))
      → Keeps
          (Single env)
          (on_refresh_tokens (RefreshTokens.find_by_value v) >>= λ o. or_raise o e >>= f)
  unfolding services RefreshTokens.find_by_value
  find-Single v e f kf = record {
    from = λ w h.
        or_raise-Single (Dict.get w.refresh_tokens v) e f w kf
          (λ k q. ap (Dict.get w.refresh_tokens) (h.keyed v k q) ∙ q) h;
  }

  guard-Held : (k : RefreshToken) (b : Bool) (e : Exception) → Keeps ((Held env) k) (guard b e)
  guard-Held k b e = guard-Keeps b e

  refreshing-Single : (r : TokenRequest) (c : Client) → Keeps (Single env) (Grant.execute env r c)
  unfolding Grant.execute
  refreshing-Single r c = bind-Keeps _ _ (require_grant-Keeps c _) (λ _.
      bind-Keeps _ _ (required-Keeps r.refresh_token _) (λ v. find-Single v _ _ (λ k.
        bind-Leads _ _ ((held env) k) (guard-Held k _ _) (λ _.
          bind-Leads _ _ ((held env) k) ((now-Held env) k) (λ t. (present-Single env) r c k t)))))

  pub Single-StepsKeep : NeverRepeats env → StepsKeep env (Single env)
  Single-StepsKeep distinct = record {
    reading = (now-Single env);
    drawing = (draw-Single env);
    consuming = λ u t. (auth-Single env) _ (AuthorizationCodes.consume u t);
    minting = (minting-Single env) distinct;
    refreshing = refreshing-Single;
    polling =
        polling-Keeps env (now-Single env) (draw-Single env) ((minting-Single env) distinct)
          (device-Single env);
    granting = (grant_code-Single env);
    opening = opening-Keeps env (
        open_code-Keeps env (now-Single env) (draw-Single env) (choose-Single env)
          (λ c. (device-Single env) _ (DeviceCodes.save c)));
    deciding =
        deciding-Keeps env (now-Single env) (draw-Single env) ((minting-Single env) distinct)
          (device-Single env);
  }
