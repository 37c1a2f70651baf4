-- ===== src/System/FamilySteps.antt =====
-- The writes of the refresh grant keep at most one live token in each family.
use oauth_lab.Prelude.{
  ℕ, ◌+◌, String, none, some, true, false, ◌≡◌, arith, refl, sym, subst, Bool-cases, inl, inr,
}
use oauth_lab.Flow.{Flow, pure, raise, ◌>>◌}
use oauth_lab.Flow.Keeps.{
  Keeps, Leads, keeps_rules, bind-Keeps, bind-Leads, lead-Leads, if-Leads, Keeps-Leads, pure-Keeps,
  raise-Keeps, lift-Keeps,
}
use oauth_lab.Dict
use oauth_lab.Dict.{Dict}
use oauth_lab.Domain.Errors.{Exception}
use oauth_lab.Domain.Scope.{ScopeSet}
use oauth_lab.Domain.Client.{Client, supports_grant, refresh_token}
use oauth_lab.Domain.DeviceCode.{seconds}
use oauth_lab.Domain.AuthorizationCode.{AuthorizationCode}
use oauth_lab.Domain.RefreshToken.{RefreshToken}
use oauth_lab.Memory.RefreshTokens
use oauth_lab.Memory.DeviceCodes
use oauth_lab.World.{World, on_auth_codes, on_refresh_tokens, on_device_codes, services}
use oauth_lab.World.Env.{Env}
use oauth_lab.World.Issuers.{now, token_urlsafe}
use oauth_lab.Token.{TokenRequest, TokenIssuanceResult, mint_refresh_token}
use oauth_lab.Grant.RefreshToken as Grant
use oauth_lab.Service.Consent.{ConsentDecision, grant_code}
use oauth_lab.Service.Device.{choose_letter}
use oauth_lab.System.Frames.{issue-Keeps}
use oauth_lab.System.Family.{
  NeverRepeats, Families, Families-later, minted-Families, rotate-Families,
}
use oauth_lab.System.FamilyRevoked.{revoke_family-Families}

module _ (env : Env) where
  -- the invariant, of the state of the server
  abbrev pub Single : World → Type 0
  Single w = Families env w.draws w.refresh_tokens

  -- besides, this token is stored under its own value
  abbrev pub Held : RefreshToken → World → Type 0
  Held k w = Single w × (Dict.get w.refresh_tokens k.value ≡ some k)

  pub now-Single : Keeps Single (now env)
  unfolding now pure
  now-Single = record { from = λ w h. h }

  pub draw-Single : (n : ℕ) → Keeps Single (token_urlsafe env n)
  unfolding token_urlsafe pure
  draw-Single n = record {
    from = λ w h. Families-later env w.draws (w.draws + 1) w.refresh_tokens (ground arith) h;
  }

  pub choose-Single : Keeps Single (choose_letter env)
  unfolding choose_letter pure
  choose-Single = record {
    from = λ w h. Families-later env w.draws (w.draws + 1) w.refresh_tokens (ground arith) h;
  }

  pub auth-Single :
      (A : Type 0) (m : Flow (Dict AuthorizationCode) Exception A) → Keeps Single (on_auth_codes m)
  unfolding services
  auth-Single A m = record { from = λ w h. h }

  pub device-Single :
      (A : Type 0) (m : Flow DeviceCodes.Store Exception A) → Keeps Single (on_device_codes m)
  unfolding services
  device-Single A m = record { from = λ w h. h }

  revoke-Single :
      (f : String) (t : ℕ) → Keeps Single (on_refresh_tokens (RefreshTokens.revoke_family f t))
  unfolding services
  revoke-Single f t = record {
    from = λ w h. revoke_family-Families env w.draws f t w.refresh_tokens h;
  }

  pub grant_code-Single : (c : Client) (d : ConsentDecision) → Keeps Single (grant_code env c d)
  unfolding grant_code
  grant_code-Single c d =
      let reading = now-Single in search (keeps_rules, draw-Single, auth-Single) depth 16

  -- the token that is minted in a world
  abbrev minted : Client → String → ScopeSet → ℕ → World → RefreshToken
  minted c sub s t w = record {
    value = env.token_at w.draws 32;
    family_id = env.token_at (w.draws + 1) 16;
    client_id = c.id;
    user_sub = sub;
    scope = s;
    issued_at = t;
    expires_at = t + seconds env.refresh_token_ttl;
    consumed_at = none;
  }

  mint-writes :
      (c : Client) (sub : String) (s : ScopeSet) (t : ℕ) (w : World)
      → supports_grant c refresh_token ≡ true
      → (mint_refresh_token env c sub s t w).1 ≡ record w {
        refresh_tokens = Dict.put w.refresh_tokens (minted c sub s t w).value (minted c sub s t w);
        draws = w.draws + 1 + 1;
      }
  unfolding services mint_refresh_token token_urlsafe RefreshTokens.save
  mint-writes c sub s t w g = ground arith

  mint-skips :
      (c : Client) (sub : String) (s : ScopeSet) (t : ℕ) (w : World)
      → supports_grant c refresh_token ≡ false
      → (mint_refresh_token env c sub s t w).1 ≡ w
  unfolding services mint_refresh_token
  mint-skips c sub s t w g = ground arith

  pub minting-Single :
      NeverRepeats env
      → (c : Client) (sub : String) (s : ScopeSet) (t : ℕ)
      → Keeps Single (mint_refresh_token env c sub s t)
  minting-Single distinct c sub s t = record {
    from = λ w h. elim (Bool-cases (supports_grant c refresh_token)) [
      | inl g ↦ subst Single (sym (mint-writes c sub s t w g)) (
          minted-Families env (w.draws + 1) w.refresh_tokens (minted c sub s t w) distinct
            (Families-later env w.draws (w.draws + 1) w.refresh_tokens (ground arith) h) refl)
      | inr g ↦ subst Single (sym (mint-skips c sub s t w g)) h
    ];
  }

  pub held : (k : RefreshToken) (w : World) → Held k w → Single w
  held k w h = h.0

  pub now-Held : (k : RefreshToken) → Keeps (Held k) (now env)
  unfolding now pure
  now-Held k = record { from = λ w h. h }

  draw-Held : (k : RefreshToken) (n : ℕ) → Keeps (Held k) (token_urlsafe env n)
  unfolding token_urlsafe pure
  draw-Held k n = record {
    from =
        λ w h. (Families-later env w.draws (w.draws + 1) w.refresh_tokens (ground arith) h.0, h.1);
  }

  rotate-Single :
      (k new : RefreshToken) (t : ℕ)
      → new.family_id ≡ k.family_id
      → Leads (Held k) Single (on_refresh_tokens (RefreshTokens.rotate k.value new t))
  unfolding services
  rotate-Single k new t f = record {
    from = λ w h. rotate-Families env w.draws w.refresh_tokens k new t h.0 h.1 f;
  }

  exchange-Single :
      (r : TokenRequest) (c : Client) (k : RefreshToken) (t : ℕ)
      → Leads (Held k) Single (Grant.exchange env r c k t)
  unfolding Grant.exchange
  exchange-Single r c k t = bind-Leads _ _ (held k) (lift-Keeps _) (λ scope.
      bind-Leads _ _ (held k) (draw-Held k 32) (λ value.
        lead-Leads _ _ (rotate-Single k _ t refl)
          (λ _. bind-Keeps _ _ (issue-Keeps env now-Single draw-Single _) (λ _. pure-Keeps _))))

  refused-Single :
      (k : RefreshToken) (e : Exception) → Leads (Held k) Single (raise {A = TokenIssuanceResult} e)
  refused-Single k e = Keeps-Leads _ (held k) (raise-Keeps e)

  replayed-Single :
      (k : RefreshToken) (f : String) (t : ℕ) (e : Exception)
      → Leads
          (Held k)
          Single
          (on_refresh_tokens (RefreshTokens.revoke_family f t) >> raise {A = TokenIssuanceResult} e)
  replayed-Single k f t e =
      Keeps-Leads _ (held k) (bind-Keeps _ _ (revoke-Single f t) (λ _. raise-Keeps e))

  pub present-Single :
      (r : TokenRequest) (c : Client) (k : RefreshToken) (t : ℕ)
      → Leads (Held k) Single (Grant.present env r c k t)
  unfolding Grant.present
  present-Single r c k t =
      search (if-Leads, refused-Single, replayed-Single, exchange-Single) depth 8
