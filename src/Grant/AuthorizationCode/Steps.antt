-- ===== src/Grant/AuthorizationCode/Steps.antt =====
-- The steps of an exchange of an authorization code that returned.
use oauth_lab.Prelude.{ℕ, String, some, ◌≡◌, arith}
use oauth_lab.Flow.{ok, pure, ◌>>=◌}
use oauth_lab.Flow.Inversion.{bind-eq-ok}
use oauth_lab.Domain.Client.{Client}
use oauth_lab.Domain.AuthorizationCode.{AuthorizationCode}
use oauth_lab.Memory.AuthorizationCodes
use oauth_lab.World.{World, on_auth_codes}
use oauth_lab.World.Env.{Env}
use oauth_lab.World.Issuers.{now}
use oauth_lab.Token.Returned.{required-ok, required-ok_same, require_grant-ok}
use oauth_lab.Token.{TokenRequest, TokenIssuanceResult}
use oauth_lab.Grant.AuthorizationCode.{execute, check_code, mint_tokens}

module _ (env : Env) where
  check_code-ok :
      (request : TokenRequest) (client : Client) (s : String) (c : AuthorizationCode) (w w' : World)
      (u : Unit {0})
      → check_code env request client s c w ≡ (ok u, w')
      → w' ≡ w
  unfolding ◌>>=◌ check_code
  check_code-ok request client s c w w' u h = ground arith

  now-ok : (t : ℕ) (w w' : World) → now env w ≡ (ok t, w') → (w'.auth_codes ≡ w.auth_codes)
  unfolding now pure
  now-ok t w w' h = ground arith

  -- the steps of an exchange that returned
  pub execute-ok :
      (request : TokenRequest) (client : Client) (v : String) (w w' : World)
      {r : TokenIssuanceResult}
      → request.code ≡ some v
      → execute env request client w ≡ (ok r, w')
      → (t : ℕ) × (w4 : World) × (w5 : World) × (c : AuthorizationCode) × (w4.auth_codes
          ≡ w.auth_codes)
        × (on_auth_codes (AuthorizationCodes.consume v t) w4 ≡ (ok c, w5))
        × (mint_tokens env client c w5 ≡ (ok r, w'))
  unfolding execute
  execute-ok request client v w w' {r} e h =
      let (_, w1, e1, h1) = bind-eq-ok _ _ h in
      let (u, w2, e2, h2) = bind-eq-ok _ _ h1 in
      let (s, w3, e3, h3) = bind-eq-ok _ _ h2 in
      let (t, w4, e4, h4) = bind-eq-ok _ _ h3 in
      let (c, w5, e5, h5) = bind-eq-ok _ _ h4 in
      let (_, w6, e6, h6) = bind-eq-ok _ _ h5 in
      let (_, s1) = require_grant-ok client _ w w1 _ e1 in
      let (eq, s2) = required-ok request.code _ v u w1 w2 e e2 in
      let s3 = required-ok_same request.code_verifier _ s w2 w3 e3 in
      let s4 = now-ok t w3 w4 e4 in
      let s6 = check_code-ok request client s c w5 w6 _ e6 in (t, w4, w5, c, cc, cc, cc)
