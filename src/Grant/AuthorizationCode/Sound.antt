-- ===== src/Grant/AuthorizationCode/Sound.antt =====
-- What a successful exchange of an authorization code has verified.
use oauth_lab.Prelude.{◌==◌, String, some, true, false, ◌≡◌, eq_iff, arith}
use oauth_lab.Flow.{ok, is_raised}
use oauth_lab.Dict
use oauth_lab.Dict.{get-put_self}
use oauth_lab.Memory.RefreshTokens
use oauth_lab.Domain.Pkce.{verify}
use oauth_lab.Domain.Client.{Client, supports_grant, authorization_code}
use oauth_lab.Domain.AuthorizationCode
use oauth_lab.Domain.AuthorizationCode.{AuthorizationCode, is_consumed, is_expired}
use oauth_lab.Memory.AuthorizationCodes
use oauth_lab.World.{World, services}
use oauth_lab.World.Env.{Env}
use oauth_lab.World.Issuers.{now, issue, issue_opaque, issue_jwt, issue_id_token, token_urlsafe}
use oauth_lab.Token.{required, TokenRequest, TokenIssuanceResult, require_grant, mint_refresh_token}
use oauth_lab.Grant.AuthorizationCode.{execute, check_code, mint_tokens, mint_id_token, uri_agrees}

module _ (env : Env) where
  -- An exchange that returns, of a code that is stored and with a verifier, was allowed: the
  -- client may use the grant, the code was issued to it, the redirect URI agrees with the one
  -- bound to the code, the verifier matches the challenge, and the code was neither consumed nor
  -- expired. The answer has the scope of the code.
  pub execute_sound :
      (request : TokenRequest) (client : Client) (v verifier : String) (w w' : World)
      (code : AuthorizationCode) (r : TokenIssuanceResult)
      → request.code ≡ some v
      → request.code_verifier ≡ some verifier
      → Dict.get w.auth_codes v ≡ some code
      → execute env request client w ≡ (ok r, w')
      → (supports_grant client authorization_code ≡ true)
        × (code.client_id ≡ client.id)
        × (uri_agrees request.redirect_uri code.redirect_uri ≡ true)
        × (verify env.s256 verifier code.pkce_challenge ≡ true)
        × (is_consumed code ≡ false)
        × (is_expired code (env.now_at w.reads) ≡ false)
        × (r.scope ≡ some code.scope)
  unfolding services required execute check_code require_grant AuthorizationCodes.consume
      AuthorizationCode.consume now mint_tokens
  execute_sound request client v verifier w w' code r e ev stored h =
      ground (arith, eq_iff code.client_id client.id)

  -- A code that is good is exchanged: where the client may use the grant, and the code is stored, was
  -- issued to it, neither consumed nor expired, and the redirect URI and the verifier match, the
  -- request does not raise.
  pub execute_complete :
      (request : TokenRequest) (client : Client) (v verifier : String) (w : World)
      (code : AuthorizationCode)
      → request.code ≡ some v
      → request.code_verifier ≡ some verifier
      → (v == "") ≡ false
      → (verifier == "") ≡ false
      → Dict.get w.auth_codes v ≡ some code
      → supports_grant client authorization_code ≡ true
      → code.client_id ≡ client.id
      → uri_agrees request.redirect_uri code.redirect_uri ≡ true
      → verify env.s256 verifier code.pkce_challenge ≡ true
      → is_consumed code ≡ false
      → is_expired code (env.now_at w.reads) ≡ false
      → is_raised (execute env request client w).0 ≡ false
  unfolding services required execute check_code require_grant AuthorizationCodes.consume
      AuthorizationCode.consume now mint_tokens is_consumed mint_refresh_token mint_id_token issue
      issue_opaque issue_jwt issue_id_token token_urlsafe RefreshTokens.save
  execute_complete request client v verifier w code e ev nv nc stored g o u p c x =
      ground (arith, eq_iff code.client_id client.id)
