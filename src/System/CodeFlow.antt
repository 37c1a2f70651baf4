-- ===== src/System/CodeFlow.antt =====
-- The authorization code flow, from the consent form to the tokens.
use oauth_lab.Prelude.{
  ◌+◌, String, Option, none, some, true, false, leb, ◌==◌, ◌≡◌, arith, refl, sym, ap, ◌∙◌, eq_iff,
}
use oauth_lab.Flow.{is_raised, ok}
use oauth_lab.Dict
use oauth_lab.Domain.Pkce.{is_valid_code_verifier, verify}
use oauth_lab.Domain.Client.{Client, supports_grant, authorization_code}
use oauth_lab.Domain.DeviceCode.{seconds}
use oauth_lab.Domain.AuthorizationCode.{AuthorizationCode, is_consumed, is_expired}
use oauth_lab.World.{World}
use oauth_lab.World.Env.{Env}
use oauth_lab.Token.{TokenRequest}
use oauth_lab.Grant.AuthorizationCode.{execute, uri_agrees}
use oauth_lab.Grant.AuthorizationCode.Sound.{execute_complete}
use oauth_lab.Service.Consent.{ConsentDecision, granted, consent}
use oauth_lab.Service.Consent.Issued.{IsCodeOf, consent-granted}

module _ (env : Env) where
  uri_agrees_self : (o : Option String) (u v : String) → o ≡ some u → v ≡ u → uri_agrees o v ≡ true
  uri_agrees_self none u v e n = refl
  uri_agrees_self (some t) u v e n = ground (arith, eq_iff v t)

  verify-challenge :
      (verifier : String) (code : AuthorizationCode) (challenge : String)
      → is_valid_code_verifier verifier ≡ true
      → (env.s256 verifier == challenge) ≡ true
      → code.pkce_challenge.value ≡ challenge
      → verify env.s256 verifier code.pkce_challenge ≡ true
  unfolding verify
  verify-challenge verifier code challenge p m e = ground (
    arith,
    eq_iff (env.s256 verifier) challenge,
    eq_iff (env.s256 verifier) code.pkce_challenge.value,
  )

  exchange_code :
      (decision : ConsentDecision) (client : Client) (w w' : World) (uri value verifier : String)
      (request : TokenRequest) (o : Option AuthorizationCode)
      → supports_grant client authorization_code ≡ true
      → uri ≡ decision.redirect_uri
      → request.code ≡ some value
      → request.redirect_uri ≡ some uri
      → request.code_verifier ≡ some verifier
      → (value == "") ≡ false
      → (verifier == "") ≡ false
      → is_valid_code_verifier verifier ≡ true
      → (env.s256 verifier == decision.code_challenge) ≡ true
      → leb (env.now_at w.reads + seconds env.code_ttl) (env.now_at w'.reads) ≡ false
      → IsCodeOf env client decision w o
      → Dict.get w'.auth_codes value ≡ o
      → is_raised (execute env request client w').0 ≡ false
  unfolding is_consumed is_expired
  exchange_code decision client w w' uri value verifier request none g eu ec er ev nv nr p m x is
        st =
      absurd is
  exchange_code decision client w w' uri value verifier request (some code) g eu ec er ev nv nr p m
        x is st =
      let (whole, _, bound, _) = is in
      execute_complete env request client value verifier w' code ec ev nv nr st g
        (ap (λ c. c.client_id) whole)
        (uri_agrees_self request.redirect_uri uri code.redirect_uri er
          (ap (λ c. c.redirect_uri) whole ∙ sym eu))
        (verify-challenge verifier code decision.code_challenge p m bound) (ap is_consumed whole)
        (ap (λ c. leb c.expires_at (env.now_at w'.reads)) whole ∙ x)

  -- The code flow goes through: the code that an approved consent answers with can be exchanged by the
  -- client, with the redirect URI of the answer and a valid verifier whose S256 transform is
  -- the challenge of the form, before the lifetime of the code is over.
  pub consent-then_execute :
      (decision : ConsentDecision) (client : Client) (w w' : World) (uri value verifier : String)
      (state : Option String) (request : TokenRequest)
      → Dict.get w.clients decision.client_id ≡ some client
      → consent env decision w ≡ (ok (granted uri value state), w')
      → request.code ≡ some value
      → request.redirect_uri ≡ some uri
      → request.code_verifier ≡ some verifier
      → (value == "") ≡ false
      → (verifier == "") ≡ false
      → is_valid_code_verifier verifier ≡ true
      → (env.s256 verifier == decision.code_challenge) ≡ true
      → leb (env.now_at w.reads + seconds env.code_ttl) (env.now_at w'.reads) ≡ false
      → is_raised (execute env request client w').0 ≡ false
  consent-then_execute decision client w w' uri value verifier state request f h ec er ev nv nr p m
        x =
      let (_, eu, _, _, g, _, is) = consent-granted env decision client w w' uri value state f h in
      exchange_code decision client w w' uri value verifier request (Dict.get w'.auth_codes value) g
        eu ec er ev nv nr p m x is refl
