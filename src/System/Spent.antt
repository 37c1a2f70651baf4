-- ===== src/System/Spent.antt =====
-- An authorization code that is stored as consumed stays so.
use oauth_lab.Prelude.{
  ℕ, ◌≤◌, String, Option, none, some, Bool, true, false, ◌≡◌, ◌≢◌, arith, eq_iff, Option-cases, inl,
  inr,
}
use oauth_lab.Flow.{ok, Flow, pure, ◌>>=◌}
use oauth_lab.Flow.Keeps.{Keeps}
use oauth_lab.Dict
use oauth_lab.Dict.{Dict, get-put, get-put_self}
use oauth_lab.Domain.Errors.{Exception}
use oauth_lab.Domain.Client.{Client}
use oauth_lab.Domain.AuthorizationCode
use oauth_lab.Domain.AuthorizationCode.{AuthorizationCode, is_consumed, is_expired}
use oauth_lab.Domain.RefreshToken.{RefreshToken}
use oauth_lab.Memory.AuthorizationCodes
use oauth_lab.Memory.DeviceCodes
use oauth_lab.World.{World, on_auth_codes, on_refresh_tokens, on_device_codes, services}
use oauth_lab.World.Env.{Env}
use oauth_lab.World.Issuers.{now, token_urlsafe}
use oauth_lab.Grant.AuthorizationCode as Code
use oauth_lab.Service.Consent.{ConsentDecision, grant_code}
use oauth_lab.Service.Device.{choose_letter}
use oauth_lab.System.Preserve.{StepsKeep}
use oauth_lab.System.Opening.{open_code-Keeps, opening-Keeps}
use oauth_lab.System.Frames.{
  minting-Keeps, refreshing-Keeps, polling-Keeps, deciding-Keeps, mint_code_tokens-Keeps,
}

-- the entry of a code says that it was consumed
abbrev pub is_spent : Option AuthorizationCode → Bool
is_spent none = false
is_spent (some c) = is_consumed c

-- no later draw of the random source gives the value
abbrev pub NeverDrawn : Env → String → ℕ → Type 0
NeverDrawn env v start = (n : ℕ) → start ≤ n → env.token_at n 32 ≢ v

-- The code is stored as consumed, at a moment from which its value is not drawn.
pub record Spent (v : String) (start : ℕ) (w : World) : Type 0 where
  pub drawn : start ≤ w.draws
  pub spent : is_spent (Dict.get w.auth_codes v) ≡ true

consume-is_spent :
    (u : String) (t : ℕ) (store : AuthorizationCodes.Store) (v : String)
    → is_spent (Dict.get store v) ≡ true
    → is_spent (Dict.get (AuthorizationCodes.consume u t store).1 v) ≡ true
unfolding AuthorizationCodes.consume AuthorizationCode.consume is_consumed ◌>>=◌
consume-is_spent u t store v h = elim (Option-cases (Dict.get store u)) [
  | inl e ↦ ground arith
  | inr (c, e) ↦ ground (arith, get-put store u v (record c { consumed_at = some t }), eq_iff u v)
]

module _ (env : Env) (v : String) (start : ℕ) where
  now-Spent : Keeps (Spent v start) (now env)
  unfolding now pure
  now-Spent = record { from = λ w h. record { drawn = h.drawn; spent = h.spent } }

  draw-Spent : (n : ℕ) → Keeps (Spent v start) (token_urlsafe env n)
  unfolding token_urlsafe pure
  draw-Spent n = record { from = λ w h. record { drawn = ground arith; spent = h.spent } }

  choose-Spent : Keeps (Spent v start) (choose_letter env)
  unfolding choose_letter pure
  choose-Spent = record { from = λ w h. record { drawn = ground arith; spent = h.spent } }

  refresh-Spent :
      (A : Type 0) (m : Flow (Dict RefreshToken) Exception A)
      → Keeps (Spent v start) (on_refresh_tokens m)
  unfolding services
  refresh-Spent A m = record { from = λ w h. record { drawn = h.drawn; spent = h.spent } }

  device-Spent :
      (A : Type 0) (m : Flow DeviceCodes.Store Exception A)
      → Keeps (Spent v start) (on_device_codes m)
  unfolding services
  device-Spent A m = record { from = λ w h. record { drawn = h.drawn; spent = h.spent } }

  consume-Spent :
      (u : String) (t : ℕ) → Keeps (Spent v start) (on_auth_codes (AuthorizationCodes.consume u t))
  unfolding services
  consume-Spent u t = record {
    from = λ w h. record { drawn = h.drawn; spent = consume-is_spent u t w.auth_codes v h.spent };
  }

  grant_code-Spent :
      NeverDrawn env v start
      → (c : Client) (d : ConsentDecision) → Keeps (Spent v start) (grant_code env c d)
  unfolding services grant_code AuthorizationCodes.save now token_urlsafe
  grant_code-Spent fresh c d = record {
    from = λ w h. grind (arith, get-put, eq_iff, fresh w.draws h.drawn);
  }

  pub mint_tokens-Spent :
      (c : Client) (a : AuthorizationCode) → Keeps (Spent v start) (Code.mint_tokens env c a)
  mint_tokens-Spent =
      mint_code_tokens-Keeps env now-Spent draw-Spent
        (minting-Keeps env now-Spent draw-Spent refresh-Spent)

  pub Spent-StepsKeep : NeverDrawn env v start → StepsKeep env (Spent v start)
  Spent-StepsKeep fresh =
      let minting = minting-Keeps env now-Spent draw-Spent refresh-Spent in
      record {
        reading = now-Spent;
        drawing = draw-Spent;
        consuming = consume-Spent;
        minting = minting;
        refreshing = refreshing-Keeps env now-Spent draw-Spent refresh-Spent;
        polling = polling-Keeps env now-Spent draw-Spent minting device-Spent;
        granting = grant_code-Spent fresh;
        opening = opening-Keeps env (
            open_code-Keeps env now-Spent draw-Spent choose-Spent
              (λ c. device-Spent _ (DeviceCodes.save c)));
        deciding = deciding-Keeps env now-Spent draw-Spent minting device-Spent;
      }

-- what `consume` leaves for the code that it returns
pub consume-ok_is_spent :
    (u : String) (t : ℕ) (w w' : World) {c : AuthorizationCode}
    → on_auth_codes (AuthorizationCodes.consume u t) w ≡ (ok c, w')
    → is_spent (Dict.get w'.auth_codes u) ≡ true
unfolding AuthorizationCodes.consume AuthorizationCode.consume is_consumed services
consume-ok_is_spent u t w w' h = elim (Option-cases (Dict.get w.auth_codes u)) [
  | inl e ↦ ground arith
  | inr (c, e) ↦ ground (arith, get-put_self w.auth_codes u (record c { consumed_at = some t }))
]

pub consume-ok_was_live :
    (u : String) (t : ℕ) (w w' : World) {c : AuthorizationCode}
    → on_auth_codes (AuthorizationCodes.consume u t) w ≡ (ok c, w')
    → is_spent (Dict.get w.auth_codes u) ≡ false
unfolding AuthorizationCodes.consume AuthorizationCode.consume is_consumed services
consume-ok_was_live u t w w' h = ground arith
