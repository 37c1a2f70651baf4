-- ===== src/System/RedeemedSteps.antt =====
-- The writes of the device grant and of the device form keep a redeemed device code redeemed.
use oauth_lab.Prelude.{ℕ, ◌≤◌, String, some, true, ◌≡◌, arith, refl, ap, sym, ◌∙◌, if◌then◌else◌}
use oauth_lab.Flow.{Flow, pure, raise, ◌>>◌, or_raise, ◌>>=◌}
use oauth_lab.Flow.Keeps.{
  Keeps, Leads, keeps_rules, bind-Keeps, bind-Leads, lead-Leads, if-Leads, Keeps-Leads, raise-Keeps,
  guard-Keeps, or_raise-Keeps,
}
use oauth_lab.Dict
use oauth_lab.Dict.{Dict, get-put}
use oauth_lab.Domain.Errors.{Exception}
use oauth_lab.Domain.Client.{Client}
use oauth_lab.Domain.AuthorizationCode.{AuthorizationCode}
use oauth_lab.Domain.RefreshToken.{RefreshToken}
use oauth_lab.Domain.DeviceCode.{DeviceCode, is_redeemed, mark_polled, approve, deny}
use oauth_lab.Memory.DeviceCodes
use oauth_lab.Memory.DeviceCodes.{follow}
use oauth_lab.World.{World, on_auth_codes, on_refresh_tokens, on_device_codes, services}
use oauth_lab.World.Env.{Env}
use oauth_lab.World.Issuers.{now, token_urlsafe}
use oauth_lab.Token.{TokenIssuanceResult}
use oauth_lab.Grant.DeviceCode as Grant
use oauth_lab.Service.Device.{DeviceConsentDecision, choose_letter, decide}
use oauth_lab.System.Frames.{minting-Keeps, mint_device_tokens-Keeps}
use oauth_lab.System.Redeemed.{is_used, Used, put-Used, redeem-Used}
use oauth_lab.Service.Consent.{ConsentDecision, grant_code}

-- the code is stored as redeemed, at a moment from which its value is not drawn
pub record Closed (v : String) (start : ℕ) (w : World) : Type 0 where
  pub drawn : start ≤ w.draws
  pub store : Used v w.device_codes

-- besides, this code is stored under its own value
abbrev pub Holding : String → ℕ → DeviceCode → World → Type 0
Holding v start c w =
    Closed v start w × (Dict.get w.device_codes.by_device_code c.device_code ≡ some c)

decided-name :
    (d : DeviceConsentDecision) (k : DeviceCode)
    → (if d.approved then approve k d.user_sub else deny k).device_code ≡ k.device_code
unfolding approve deny
decided-name d k = ground arith

decided-redeemed :
    (d : DeviceConsentDecision) (k : DeviceCode)
    → is_redeemed (if d.approved then approve k d.user_sub else deny k) ≡ is_redeemed k
unfolding approve deny is_redeemed
decided-redeemed d k = ground arith

module _ (env : Env) (v : String) (start : ℕ) where
  pub now-Closed : Keeps (Closed v start) (now env)
  unfolding now pure
  now-Closed = record { from = λ w h. record { drawn = h.drawn; store = h.store } }

  pub draw-Closed : (n : ℕ) → Keeps (Closed v start) (token_urlsafe env n)
  unfolding token_urlsafe pure
  draw-Closed n = record { from = λ w h. record { drawn = ground arith; store = h.store } }

  pub choose-Closed : Keeps (Closed v start) (choose_letter env)
  unfolding choose_letter pure
  choose-Closed = record { from = λ w h. record { drawn = ground arith; store = h.store } }

  pub refresh-Closed :
      (A : Type 0) (m : Flow (Dict RefreshToken) Exception A)
      → Keeps (Closed v start) (on_refresh_tokens m)
  unfolding services
  refresh-Closed A m = record { from = λ w h. record { drawn = h.drawn; store = h.store } }

  pub auth-Closed :
      (A : Type 0) (m : Flow (Dict AuthorizationCode) Exception A)
      → Keeps (Closed v start) (on_auth_codes m)
  unfolding services
  auth-Closed A m = record { from = λ w h. record { drawn = h.drawn; store = h.store } }

  pub now-Holding : (c : DeviceCode) → Keeps (Holding v start c) (now env)
  unfolding now pure
  now-Holding c = record { from = λ w h. (record { drawn = h.0.drawn; store = h.0.store }, h.1) }

  pub grant_code-Closed :
      (c : Client) (d : ConsentDecision) → Keeps (Closed v start) (grant_code env c d)
  unfolding grant_code
  grant_code-Closed c d =
      let reading = now-Closed in search (keeps_rules, draw-Closed, auth-Closed) depth 16

  -- the writes of one record: fresh, or in place of the one that is held
  pub save-Closed :
      (c : DeviceCode)
      → (c.device_code ≡ v → is_redeemed c ≡ true)
      → Keeps (Closed v start) (on_device_codes (DeviceCodes.save c))
  unfolding services DeviceCodes.save
  save-Closed c r = record {
    from = λ w h. record { drawn = h.drawn; store = put-Used v w.device_codes c _ r h.store };
  }

  held-redeemed :
      (c : DeviceCode) (w : World) → Holding v start c w → c.device_code ≡ v → is_redeemed c ≡ true
  held-redeemed c w h e =
      ap is_used (sym h.1)
      ∙ ap (λ k. is_used (Dict.get w.device_codes.by_device_code k)) e
      ∙ h.0.store.used

  save-Holding :
      (c d : DeviceCode)
      → d.device_code ≡ c.device_code
      → is_redeemed d ≡ is_redeemed c
      → Leads (Holding v start c) (Closed v start) (on_device_codes (DeviceCodes.save d))
  save-Holding c d n r = record {
    from = λ w h. (save-Closed d (λ e. r ∙ held-redeemed c w h (sym n ∙ e))).from w h.0;
  }

  redeem-Closed :
      (u : String) (t : ℕ) → Keeps (Closed v start) (on_device_codes (DeviceCodes.redeem u t))
  unfolding services
  redeem-Closed u t = record {
    from = λ w h. record { drawn = h.drawn; store = redeem-Used v u t w.device_codes h.store };
  }

  mint-Closed :
      (c : Client) (k : DeviceCode) (t : ℕ) → Keeps (Closed v start) (Grant.mint_tokens env c k t)
  mint-Closed =
      mint_device_tokens-Keeps env now-Closed draw-Closed
        (minting-Keeps env now-Closed draw-Closed refresh-Closed)

  pub closed : (c : DeviceCode) (w : World) → Holding v start c w → Closed v start w
  closed c w h = h.0

  polled-Leads :
      (k : DeviceCode) (t : ℕ) (e : Exception)
      → Leads (Holding v start k) (Closed v start) (
          on_device_codes (DeviceCodes.save (mark_polled k t)) >> raise {A = TokenIssuanceResult} e)
  unfolding mark_polled is_redeemed
  polled-Leads k t e =
      lead-Leads _ _ (save-Holding k (mark_polled k t) refl refl) (λ _. raise-Keeps e)

  refused-Leads :
      (k : DeviceCode) (e : Exception)
      → Leads (Holding v start k) (Closed v start) (raise {A = TokenIssuanceResult} e)
  refused-Leads k e = Keeps-Leads _ (closed k) (raise-Keeps e)

  redeem-Leads :
      (c : Client) (u : String) (k : DeviceCode) (t : ℕ) (e : Exception)
      → Leads (Holding v start k) (Closed v start) (do
        found ← on_device_codes (DeviceCodes.redeem u t)
        redeemed ← or_raise found e
        Grant.mint_tokens env c redeemed t)
  redeem-Leads c u k t e = Keeps-Leads _ (closed k) (
      bind-Keeps _ _ (redeem-Closed u t)
        (λ o. bind-Keeps _ _ (or_raise-Keeps o e) (λ r. mint-Closed c r t)))

  pub poll-Leads :
      (c : Client) (u : String) (k : DeviceCode) (t : ℕ)
      → Leads (Holding v start k) (Closed v start) (Grant.poll env c u k t)
  unfolding Grant.poll
  poll-Leads c u k t = search (if-Leads, refused-Leads, polled-Leads, redeem-Leads) depth 8

  pub decide-Leads :
      (d : DeviceConsentDecision) (k : DeviceCode)
      → Leads (Holding v start k) (Closed v start) (decide env d k)
  unfolding decide
  decide-Leads d k = bind-Leads _ _ (closed k) (now-Holding k) (λ t.
      bind-Leads _ _ (closed k) (guard-Keeps _ _) (λ _.
        bind-Leads _ _ (closed k) (guard-Keeps _ _)
          (λ _. save-Holding k _ (decided-name d k) (decided-redeemed d k))))
