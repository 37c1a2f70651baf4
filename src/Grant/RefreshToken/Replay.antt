-- ===== src/Grant/RefreshToken/Replay.antt =====
-- What presenting a consumed refresh token does.
use oauth_lab.Prelude.{
  ℕ, not, String, Option, none, some, Bool, true, false, ◌≡◌, ◌==◌, eq_iff, arith, refl, ap, ◌∙◌,
}
use oauth_lab.Flow.{is_raised}
use oauth_lab.Dict
use oauth_lab.Dict.Unique.{IsUnique}
use oauth_lab.Domain.Client.{Client, supports_grant, refresh_token}
use oauth_lab.Domain.RefreshToken
use oauth_lab.Domain.RefreshToken.{RefreshToken, is_consumed}
use oauth_lab.Memory.RefreshTokens
use oauth_lab.Memory.RefreshTokens.{is_live_in}
use oauth_lab.Memory.RefreshTokens.Laws.{get-revoke_family, revoked, map_option}
use oauth_lab.World.{World, services}
use oauth_lab.World.Env.{Env}
use oauth_lab.World.Issuers.{now}
use oauth_lab.Token.{TokenRequest, required, require_grant}
use oauth_lab.Grant.RefreshToken.{execute, present}

module _ (env : Env) where
  replay-world :
      (request : TokenRequest) (client : Client) (w : World) (value : String) (token : RefreshToken)
      → supports_grant client refresh_token ≡ true
      → (value == "") ≡ false
      → request.refresh_token ≡ some value
      → Dict.get w.refresh_tokens value ≡ some token
      → token.client_id ≡ client.id
      → is_consumed token ≡ true
      → (is_raised (execute env request client w).0 ≡ true)
        × ((execute env request client w).1.refresh_tokens
            ≡ (RefreshTokens.revoke_family token.family_id (env.now_at w.reads) w.refresh_tokens).1)
  unfolding services required require_grant execute present now RefreshTokens.find_by_value
  replay-world request client w value token g n e s o c =
      ground (arith, eq_iff token.client_id client.id)

  -- no entry that is live in the family
  abbrev pub no_live : String → Option RefreshToken → Bool
  no_live family none = true
  no_live family (some t) = not (is_live_in family t)

  no_live-revoked :
      (family : String) (now : ℕ) (o : Option RefreshToken)
      → no_live family (map_option (revoked family now) o) ≡ true
  unfolding is_live_in RefreshToken.consume is_consumed
  no_live-revoked family now none = refl
  no_live-revoked family now (some t) = ground arith

  -- A client that may refresh and presents a refresh token of its own that was consumed already
  -- is refused, and the family of the token is revoked: each entry that was live in the family is
  -- consumed at that moment, no live one is left under any key, and the entries of the other
  -- families are as they were. The value is not empty, and no key stands twice in the store.
  pub execute-replay :
      (request : TokenRequest) (client : Client) (w : World) (value : String) (token : RefreshToken)
      (k : String)
      → IsUnique w.refresh_tokens
      → supports_grant client refresh_token ≡ true
      → (value == "") ≡ false
      → request.refresh_token ≡ some value
      → Dict.get w.refresh_tokens value ≡ some token
      → token.client_id ≡ client.id
      → is_consumed token ≡ true
      → let w' = (execute env request client w).1 in
        (is_raised (execute env request client w).0 ≡ true)
        × (Dict.get w'.refresh_tokens k
            ≡ map_option
                (revoked token.family_id (env.now_at w.reads))
                (Dict.get w.refresh_tokens k))
        × (no_live token.family_id (Dict.get w'.refresh_tokens k) ≡ true)
  execute-replay request client w value token k u g n e s o c =
      let (stop, after) = replay-world request client w value token g n e s o c in
      let entry =
        ap (λ d. Dict.get d k) after
        ∙ get-revoke_family token.family_id (env.now_at w.reads) w.refresh_tokens k u in
      (
        stop,
        entry,
        ap (no_live token.family_id) entry
            ∙ no_live-revoked token.family_id (env.now_at w.reads) (Dict.get w.refresh_tokens k),
      )
