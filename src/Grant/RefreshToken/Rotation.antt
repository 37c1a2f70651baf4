-- ===== src/Grant/RefreshToken/Rotation.antt =====
-- What a successful refresh has verified and what it wrote.
use oauth_lab.Prelude.{
  ℕ, ◌+◌, String, Option, none, some, true, false, ◌≡◌, eq_iff, arith, ap, sym, ◌∙◌,
}
use oauth_lab.Flow.{ok, ◌>>=◌}
use oauth_lab.Flow.Inversion.{bind-eq-ok, lift-eq-ok, pure-eq-ok}
use oauth_lab.Dict
use oauth_lab.Domain.Scope.{ScopeSet, is_subset_of}
use oauth_lab.Domain.Scope.Laws.{is_within, contains-intersect, IsWithin-subset, Has}
use oauth_lab.Domain.DeviceCode.{seconds}
use oauth_lab.Domain.Client.{Client, supports_grant, refresh_token}
use oauth_lab.Domain.RefreshToken
use oauth_lab.Domain.RefreshToken.{RefreshToken, is_consumed, is_expired}
use oauth_lab.Memory.RefreshTokens
use oauth_lab.World.{World, on_refresh_tokens, services}
use oauth_lab.World.Env.{Env}
use oauth_lab.World.Frame.{issue-ok_refresh_tokens}
use oauth_lab.World.Issuers.{now, token_urlsafe}
use oauth_lab.Token.{TokenRequest, TokenIssuanceResult, required, require_grant}
use oauth_lab.Grant.RefreshToken.{execute, present, exchange, narrow}

module _ (env : Env) where
  -- the refresh token that the rotation of `token` brings
  abbrev pub successor : RefreshToken → ScopeSet → String → ℕ → RefreshToken
  successor token scope value t = record {
    value = value;
    family_id = token.family_id;
    client_id = token.client_id;
    user_sub = token.user_sub;
    scope = scope;
    issued_at = t;
    expires_at = t + seconds env.refresh_token_ttl;
    consumed_at = none;
  }

  -- the store after a rotation
  abbrev pub rotated :
      RefreshTokens.Store → RefreshToken → Option ScopeSet → String → ℕ → RefreshTokens.Store
  rotated store token none value t = store
  rotated store token (some scope) value t =
      Dict.put (Dict.put store token.value (record token { consumed_at = some t })) value
        (successor token scope value t)

  execute-present :
      (request : TokenRequest) (client : Client) (w w' : World) (v : String) (token : RefreshToken)
      {r : TokenIssuanceResult}
      → request.refresh_token ≡ some v
      → Dict.get w.refresh_tokens v ≡ some token
      → execute env request client w ≡ (ok r, w')
      → (supports_grant client refresh_token ≡ true)
        × (token.client_id ≡ client.id)
        × (is_consumed token ≡ false)
        × (is_expired token (env.now_at w.reads) ≡ false)
        × (exchange env request client token (env.now_at w.reads) (record w { reads = w.reads + 1 })
            ≡ (ok r, w'))
  unfolding services required require_grant execute present now RefreshTokens.find_by_value
  execute-present request client w w' v token e s h =
      ground (arith, eq_iff token.client_id client.id)

  draw-ok :
      (n : ℕ) (w w' : World) (value : String)
      → token_urlsafe env n w ≡ (ok value, w')
      → (value ≡ env.token_at w.draws n) × (w'.refresh_tokens ≡ w.refresh_tokens)
  unfolding token_urlsafe ◌>>=◌
  draw-ok n w w' value h = ground arith

  rotate-ok :
      (old new n : RefreshToken) (t : ℕ) (w w' : World)
      → Dict.get w.refresh_tokens old.value ≡ some old
      → on_refresh_tokens (RefreshTokens.rotate old.value new t) w ≡ (ok n, w')
      → w'.refresh_tokens
        ≡ Dict.put
            (Dict.put w.refresh_tokens old.value (record old { consumed_at = some t }))
            new.value
            new
  unfolding services RefreshTokens.rotate RefreshToken.consume
  rotate-ok old new n t w w' s h = ground arith

  exchange-ok :
      (request : TokenRequest) (client : Client) (w w' : World) (token : RefreshToken) (t : ℕ)
      {r : TokenIssuanceResult}
      → Dict.get w.refresh_tokens token.value ≡ some token
      → is_consumed token ≡ false
      → exchange env request client token t w ≡ (ok r, w')
      → (granted : ScopeSet) × (narrow request.scope token.scope ≡ ok granted)
        × (r.scope ≡ some granted)
        × (r.refresh_token ≡ some (env.token_at w.draws 32))
        × (w'.refresh_tokens
            ≡ rotated w.refresh_tokens token (some granted) (env.token_at w.draws 32) t)
  unfolding exchange
  exchange-ok request client w w' token t {r} s c h =
      let (granted, eg, h1) = lift-eq-ok _ _ h in
      let (value, w2, e2, h2) = bind-eq-ok _ _ h1 in
      let (n, w3, e3, h3) = bind-eq-ok _ _ h2 in
      let (a, w4, e4, h4) = bind-eq-ok _ _ h3 in
      let (ev, s2) = draw-ok 32 w w2 value e2 in
      let s3 =
        rotate-ok token (successor token granted value t) n t w2 w3
          (ap (λ d. Dict.get d token.value) s2 ∙ s) e3 in
      let s4 = issue-ok_refresh_tokens env _ w3 w4 e4 in
      let (out, last) = pure-eq-ok _ r h4 in
      (
        granted,
        eg,
        ap (λ q. q.scope) out,
        ap (λ q. q.refresh_token) out ∙ ap some ev,
        ap (λ q. q.refresh_tokens) last ∙ s4 ∙ s3 ∙ λ i.
            Dict.put (Dict.put (s2 i) token.value (record token { consumed_at = some t })) (ev i)
              (successor token granted (ev i) t),
      )

  narrow-Has :
      (requested held granted : ScopeSet) (x : String)
      → narrow requested held ≡ ok granted
      → Has granted x
      → Has held x
  unfolding narrow
  narrow-Has requested held granted x h m = ground (arith, contains-intersect requested held x)

  narrow-is_within :
      (requested held granted : ScopeSet)
      → narrow requested held ≡ ok granted
      → is_subset_of granted held ≡ true
  unfolding narrow
  narrow-is_within requested held granted h =
      IsWithin-subset granted held (λ x m. narrow-Has requested held granted x h m)

  -- A refresh with a token that is stored under its own value and that returns was allowed: the
  -- client may refresh and owns the token, which was neither consumed nor expired. The scope of
  -- the answer lies within the token's. The token is consumed at the moment of the request, and a
  -- token of the same family, client and user, with the scope of the answer, is stored under the
  -- value that the answer carries; nothing else is written to the store.
  pub execute-rotation :
      (request : TokenRequest) (client : Client) (w w' : World) (v : String) (token : RefreshToken)
      (r : TokenIssuanceResult)
      → request.refresh_token ≡ some v
      → Dict.get w.refresh_tokens v ≡ some token
      → token.value ≡ v
      → execute env request client w ≡ (ok r, w')
      → (supports_grant client refresh_token ≡ true)
        × (token.client_id ≡ client.id)
        × (is_consumed token ≡ false)
        × (is_expired token (env.now_at w.reads) ≡ false)
        × (is_within r.scope token.scope ≡ true)
        × (r.refresh_token ≡ some (env.token_at w.draws 32))
        × (w'.refresh_tokens
            ≡ rotated w.refresh_tokens token r.scope (env.token_at w.draws 32) (env.now_at w.reads))
  execute-rotation request client w w' v token r e s named h =
      let (g, o, c, x, run) = execute-present request client w w' v token e s h in
      let t = env.now_at w.reads in
      let (granted, eg, es, er, ew) =
        exchange-ok request client (record w { reads = w.reads + 1 }) w' token t
          (ap (Dict.get w.refresh_tokens) named ∙ s) c run in
      (
        g,
        o,
        c,
        x,
        ap (λ q. is_within q token.scope) es
            ∙ narrow-is_within request.scope token.scope granted eg,
        er,
        ew ∙ ap (λ q. rotated w.refresh_tokens token q (env.token_at w.draws 32) t) (sym es),
      )
