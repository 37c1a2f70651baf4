-- ===== src/Grant/DeviceCode/Redemption.antt =====
-- What a successful poll of a device code has verified, and what each refusal writes.
use oauth_lab.Prelude.{
  ℕ, ◌+◌, ◌*◌, Bool, leb, ltb, is_some, String, Option, none, some, true, false, not, ◌≡◌, eq_iff,
  arith, refl, ap, sym, ◌∙◌, if◌then◌else◌,
}
use oauth_lab.Flow.{Flow, pure, is_raised, ok, raised}
use oauth_lab.Flow.Inversion.{bind-eq-ok, pure-eq-ok, or_raise-eq-ok}
use oauth_lab.Dict
use oauth_lab.Domain.RefreshToken.{RefreshToken}
use oauth_lab.Dict.{Dict, get-put_self}
use oauth_lab.Domain.Errors.{
  Exception, failure, expired_token, access_denied, slow_down, authorization_pending, invalid_grant,
}
use oauth_lab.Domain.Client.{Client, supports_grant, device_code}
use oauth_lab.Domain.DeviceCode
use oauth_lab.Domain.DeviceCode.{
  DeviceCode, is_expired, is_denied, is_pending, is_approved, is_redeemed, can_poll_at, mark_polled,
}
use oauth_lab.Memory.DeviceCodes
use oauth_lab.Memory.RefreshTokens
use oauth_lab.Memory.DeviceCodes.{is_redeemable}
use oauth_lab.World.{World, on_refresh_tokens, services}
use oauth_lab.World.Env.{Env}
use oauth_lab.World.Issuers.{issue, issue_opaque, issue_jwt, now, token_urlsafe}
use oauth_lab.Token.{TokenRequest, TokenIssuanceResult, required, require_grant, mint_refresh_token}
use oauth_lab.Flow.Keeps.{Keeps}
use oauth_lab.System.Frames.{minting-Keeps, mint_device_tokens-Keeps}
use oauth_lab.Grant.DeviceCode.{execute, poll, mint_tokens}

-- how a poll ends
pub data Verdict : Type 0 where
  expired denied too_fast pending redeemed_before granted : Verdict

-- the last poll was less than the interval ago
abbrev pub is_too_fast : DeviceCode → ℕ → Bool
is_too_fast code t = elim code.last_polled_at [
  | none ↦ false
  | some polled ↦ ltb t (polled + code.interval * 1000000)
]

-- the order in which RFC 8628 lets the server answer
unfoldable pub verdict : DeviceCode → ℕ → Verdict
verdict code t =
    if leb code.expires_at t
    then expired
    else if code.denied
    then denied
    else if is_too_fast code t
    then too_fast
    else if not (is_some code.user_sub)
    then pending
    else if is_some code.redeemed_at
    then redeemed_before
    else granted

module _ (env : Env) where
  -- the record with the moment of the poll and nothing else changed, under both of its keys
  abbrev pub polled_store : DeviceCodes.Store → DeviceCode → ℕ → DeviceCodes.Store
  polled_store s code t = record {
    by_device_code =
        Dict.put s.by_device_code code.device_code (record code { last_polled_at = some t });
    by_user_code = Dict.put s.by_user_code code.user_code code.device_code;
  }

  -- what a refused poll leaves of the store
  abbrev pub refused_store : DeviceCodes.Store → DeviceCode → ℕ → Verdict → DeviceCodes.Store
  refused_store s code t too_fast = polled_store s code t
  refused_store s code t pending = polled_store s code t
  refused_store s code t v = s

  abbrev pub refusal : Verdict → Option Exception
  refusal expired = some (failure expired_token "device code has expired")
  refusal denied = some (failure access_denied "user denied the authorization request")
  refusal too_fast = some (failure slow_down "polling faster than the AS-mandated interval")
  refusal pending = some (failure authorization_pending "user has not yet approved")
  refusal redeemed_before = some (failure invalid_grant "device code already redeemed")
  refusal granted = none

  -- Each poll of a stored code that is to be refused raises the error of its case, with the first
  -- case that holds in the order expired, denied, too fast (less than the interval after the last
  -- poll), pending, redeemed before. In the cases too fast and pending it stores the code with the
  -- moment of the poll and nothing else changed, under its device code and its user code; in the
  -- other cases it writes nothing.
  pub poll-refused :
      (client : Client) (v : String) (code : DeviceCode) (t : ℕ) (w : World) (e : Exception)
      → Dict.get w.device_codes.by_device_code v ≡ some code
      → refusal (verdict code t) ≡ some e
      → poll env client v code t w ≡ (
        raised e,
        record w { device_codes = refused_store w.device_codes code t (verdict code t) },
      )
  unfolding services poll DeviceCodes.redeem DeviceCodes.is_redeemable verdict DeviceCodes.save
      is_pending is_denied is_approved is_redeemed is_expired can_poll_at mark_polled
  poll-refused client v code t w e s h = ground arith

  poll-ok :
      (client : Client) (v : String) (code : DeviceCode) (t : ℕ) (w w' : World)
      {r : TokenIssuanceResult}
      → Dict.get w.device_codes.by_device_code v ≡ some code
      → poll env client v code t w ≡ (ok r, w')
      → (is_expired code t ≡ false)
        × (is_approved code ≡ true)
        × (is_redeemed code ≡ false)
        × (can_poll_at code t ≡ true)
        × (mint_tokens env client (DeviceCode.redeem code t) t (record w {
          device_codes = record w.device_codes {
            by_device_code =
                Dict.put w.device_codes.by_device_code code.device_code (DeviceCode.redeem code t);
          };
        })
            ≡ (ok r, w'))
  unfolding services poll DeviceCodes.redeem DeviceCodes.is_redeemable is_pending is_denied
      is_approved DeviceCode.redeem
  poll-ok client v code t w w' s h = ground arith

  execute-poll :
      (request : TokenRequest) (client : Client) (w w' : World) (v : String) (code : DeviceCode)
      {r : TokenIssuanceResult}
      → request.device_code ≡ some v
      → Dict.get w.device_codes.by_device_code v ≡ some code
      → execute env request client w ≡ (ok r, w')
      → (supports_grant client device_code ≡ true)
        × (code.client_id ≡ client.id)
        × (poll env client v code (env.now_at w.reads) (record w { reads = w.reads + 1 })
            ≡ (ok r, w'))
  unfolding services required require_grant execute now DeviceCodes.find_by_device_code
  execute-poll request client w w' v code e s h = ground (arith, eq_iff code.client_id client.id)

  module _ (d : DeviceCodes.Store) where
    reading-Keeps : Keeps (λ w. w.device_codes ≡ d) (now env)
    unfolding now pure
    reading-Keeps = record { from = λ w h. h }

    drawing-Keeps : (n : ℕ) → Keeps (λ w. w.device_codes ≡ d) (token_urlsafe env n)
    unfolding token_urlsafe pure
    drawing-Keeps n = record { from = λ w h. h }

    refreshing-Keeps :
        (A : Type 0) (m : Flow (Dict RefreshToken) Exception A)
        → Keeps (λ w. w.device_codes ≡ d) (on_refresh_tokens m)
    unfolding services
    refreshing-Keeps A m = record { from = λ w h. h }

    device_codes-Keeps :
        (c : Client) (k : DeviceCode) (t : ℕ)
        → Keeps (λ w. w.device_codes ≡ d) (mint_tokens env c k t)
    device_codes-Keeps =
        mint_device_tokens-Keeps env reading-Keeps drawing-Keeps
          (minting-Keeps env reading-Keeps drawing-Keeps refreshing-Keeps)

  mint_tokens-scope :
      (client : Client) (code : DeviceCode) (t : ℕ) (w w' : World) (r : TokenIssuanceResult)
      → mint_tokens env client code t w ≡ (ok r, w')
      → r.scope ≡ some code.scope
  unfolding mint_tokens
  mint_tokens-scope client code t w w' r h =
      let (u, _, h1) = or_raise-eq-ok _ _ _ h in
      let (a, w2, _, h2) = bind-eq-ok _ _ h1 in
      let (f, w3, _, h3) = bind-eq-ok _ _ h2 in
      let (out, _) = pure-eq-ok _ r h3 in ap (λ q. q.scope) out

  -- A poll of a stored code that returns tokens was allowed: the client may use the grant and
  -- owns the code, which was approved, neither expired nor redeemed, and not polled too fast. The
  -- answer has the scope of the code, and the code is stored as redeemed at that moment, with no
  -- other write to the store of device codes.
  pub execute-redemption :
      (request : TokenRequest) (client : Client) (w w' : World) (v : String) (code : DeviceCode)
      (r : TokenIssuanceResult)
      → request.device_code ≡ some v
      → Dict.get w.device_codes.by_device_code v ≡ some code
      → execute env request client w ≡ (ok r, w')
      → let t = env.now_at w.reads in
        (supports_grant client device_code ≡ true)
        × (code.client_id ≡ client.id)
        × (is_expired code t ≡ false)
        × (is_approved code ≡ true)
        × (is_redeemed code ≡ false)
        × (can_poll_at code t ≡ true)
        × (r.scope ≡ some code.scope)
        × (w'.device_codes ≡ record w.device_codes {
          by_device_code =
              Dict.put w.device_codes.by_device_code code.device_code
                (record code { redeemed_at = some t });
        })
  unfolding DeviceCode.redeem
  execute-redemption request client w w' v code r e s h =
      let (g, o, run) = execute-poll request client w w' v code e s h in
      let t = env.now_at w.reads in
      let (x, a, d, p, minted) =
        poll-ok client v code t (record w { reads = w.reads + 1 }) w' s run in
      (
        g,
        o,
        x,
        a,
        d,
        p,
        mint_tokens-scope client (DeviceCode.redeem code t) t _ w' r minted,
        ap (λ q. q.1.device_codes) (sym minted)
            ∙ (device_codes-Keeps _ client (DeviceCode.redeem code t) t).from _ refl,
      )

  -- A poll of a stored code that nothing speaks against (it is approved, not expired, not polled
  -- too fast and not redeemed) returns tokens.
  pub poll-granted :
      (client : Client) (v : String) (code : DeviceCode) (t : ℕ) (w : World)
      → Dict.get w.device_codes.by_device_code v ≡ some code
      → verdict code t ≡ granted
      → is_raised (poll env client v code t w).0 ≡ false
  unfolding services poll DeviceCodes.redeem DeviceCodes.is_redeemable verdict is_pending is_denied
      is_approved is_redeemed is_expired can_poll_at DeviceCode.redeem mint_tokens
      mint_refresh_token issue issue_opaque issue_jwt now token_urlsafe RefreshTokens.save
  poll-granted client v code t w s h = ground arith
