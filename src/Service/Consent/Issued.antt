-- ===== src/Service/Consent/Issued.antt =====
-- What the answer to the consent form is, and the code that it leaves.
use oauth_lab.Prelude.{
  ℕ, ◌+◌, String, Option, none, some, true, false, contains, ◌==◌, ◌≡◌, arith, refl, ap, sym, ◌∙◌,
  subst, eq_iff, if◌then◌else◌,
}
use oauth_lab.Flow.{pure, ok}
use oauth_lab.Flow.Inversion.{bind-eq-ok, lift-eq-ok, pure-eq-ok}
use mathlib.Core.Path.{ap₂}
use oauth_lab.Dict
use oauth_lab.Dict.{get-put_self}
use oauth_lab.Domain.Scope.{is_subset_of, ScopeSet}
use oauth_lab.Domain.Scope.Laws.{IsWithin-refl, IsWithin-subset}
use oauth_lab.Domain.Client.{Client, supports_grant, authorization_code, client_id}
use oauth_lab.Domain.AuthorizationCode.{AuthorizationCode}
use oauth_lab.Domain.Pkce.{PkceChallenge, pkce_challenge}
use oauth_lab.Domain.DeviceCode.{seconds}
use oauth_lab.Memory.Registry
use oauth_lab.Memory.AuthorizationCodes
use oauth_lab.World.{World, on_auth_codes, services}
use oauth_lab.World.Env.{Env}
use oauth_lab.World.Issuers.{now, token_urlsafe}
use oauth_lab.Service.Consent.{ConsentDecision, granted, consent, grant_code, granted_scope}

granted-inj :
    (u v : String) (s : Option String) (u' v' : String) (s' : Option String)
    → granted u v s ≡ granted u' v' s'
    → (u ≡ u') × (v ≡ v') × (s ≡ s')
granted-inj u v s u' v' s' h = (cc, cc, cc)

module _ (env : Env) where
  -- the code that a decision on a client leads to
  abbrev pub code_for :
      Client → ConsentDecision → World → ScopeSet → PkceChallenge → AuthorizationCode
  code_for client decision w scope challenge = record {
    value = env.token_at w.draws 32;
    client_id = client.id;
    user_sub = decision.user_sub;
    redirect_uri = decision.redirect_uri;
    scope = scope;
    pkce_challenge = challenge;
    issued_at = env.now_at w.reads;
    expires_at = env.now_at w.reads + seconds env.code_ttl;
    consumed_at = none;
    nonce = none;
  }

  -- the record that is stored for a client and a decision, under the value in the answer
  abbrev pub IsCodeOf : Client → ConsentDecision → World → Option AuthorizationCode → Type 0
  IsCodeOf client decision w none = ⊥
  IsCodeOf client decision w (some code) =
      (code ≡ code_for client decision w code.scope code.pkce_challenge)
      × (is_subset_of code.scope client.allowed_scopes ≡ true)
      × (code.pkce_challenge.value ≡ decision.code_challenge)
      × (code.pkce_challenge.method ≡ "S256")

  now-is :
      (w w' : World) (t : ℕ)
      → now env w ≡ (ok t, w')
      → (t ≡ env.now_at w.reads) × (w' ≡ record w { reads = w.reads + 1 })
  unfolding now pure
  now-is w w' t h = (cc, cc)

  draw-is :
      (w w' : World) (n : ℕ) (v : String)
      → token_urlsafe env n w ≡ (ok v, w')
      → v ≡ env.token_at w.draws n
  unfolding token_urlsafe pure
  draw-is w w' n v h = cc

  save-is :
      (w w' : World) (code : AuthorizationCode) (u : Unit {0})
      → on_auth_codes (AuthorizationCodes.save code) w ≡ (ok u, w')
      → Dict.get w'.auth_codes code.value ≡ some code
  unfolding services AuthorizationCodes.save
  save-is w w' code u h = ground (arith, get-put_self w.auth_codes code.value code)

  abbrev method_of : ConsentDecision → String
  method_of decision =
      if decision.code_challenge_method == "" then "S256" else decision.code_challenge_method

  challenge-ok :
      (decision : ConsentDecision) (challenge : PkceChallenge)
      → pkce_challenge decision.code_challenge (method_of decision) ≡ ok challenge
      → (challenge.value ≡ decision.code_challenge) × (challenge.method ≡ "S256")
  unfolding pkce_challenge
  challenge-ok decision challenge h = ground (arith, eq_iff (method_of decision) "S256")

  granted_scope-within :
      (raw : Option String) (allowed scope : ScopeSet)
      → granted_scope raw allowed "requested scope exceeds the client's allowed scopes" ≡ ok scope
      → is_subset_of scope allowed ≡ true
  unfolding granted_scope
  granted_scope-within raw allowed scope h =
      ground (arith, IsWithin-subset allowed allowed (IsWithin-refl allowed))

  grant_code-ok :
      (client : Client) (decision : ConsentDecision) (w w' : World) (uri value : String)
      (state : Option String)
      → grant_code env client decision w ≡ (ok (granted uri value state), w')
      → (scope : ScopeSet) × (challenge : PkceChallenge) × (pkce_challenge decision.code_challenge
            (method_of decision)
          ≡ ok challenge)
        × (granted_scope decision.scope client.allowed_scopes
              "requested scope exceeds the client's allowed scopes"
            ≡ ok scope)
        × (uri ≡ decision.redirect_uri)
        × (state ≡ decision.state)
        × (value ≡ env.token_at w.draws 32)
        × (Dict.get w'.auth_codes value ≡ some (code_for client decision w scope challenge))
  unfolding grant_code
  grant_code-ok client decision w w' uri value state h =
      let (challenge, ec, h1) = lift-eq-ok _ _ h in
      let (scope, es, h2) = lift-eq-ok _ _ h1 in
      let (t, w1, et, h3) = bind-eq-ok _ _ h2 in
      let (v, w2, ev, h4) = bind-eq-ok _ _ h3 in
      let (_, w3, ew, h5) = bind-eq-ok _ _ h4 in
      let (out, last) = pure-eq-ok _ (granted uri value state) h5 in
      let (mt, mw) = now-is w w1 t et in
      let mv : v ≡ env.token_at w.draws 32 =
        draw-is w1 w2 32 v ev ∙ ap (λ u. env.token_at u.draws 32) mw in
      let (eu, evalue, est) = granted-inj uri value state _ _ _ out in
      (
        scope,
        challenge,
        ec,
        es,
        eu,
        est,
        evalue ∙ mv,
        ap₂ (λ d k. Dict.get d k) (ap (λ u. u.auth_codes) last) evalue ∙ save-is w2 w3 _ _ ew ∙ λ i.
            some (record {
              value = mv i;
              client_id = client.id;
              user_sub = decision.user_sub;
              redirect_uri = decision.redirect_uri;
              scope = scope;
              pkce_challenge = challenge;
              issued_at = mt i;
              expires_at = mt i + seconds env.code_ttl;
              consumed_at = none;
              nonce = none;
            }),
      )

  consent-approved :
      (decision : ConsentDecision) (client : Client) (w w' : World) (uri value : String)
      (state : Option String)
      → Dict.get w.clients decision.client_id ≡ some client
      → consent env decision w ≡ (ok (granted uri value state), w')
      → (decision.approved ≡ true)
        × (contains client.redirect_uris decision.redirect_uri ≡ true)
        × (supports_grant client authorization_code ≡ true)
        × (grant_code env client decision w ≡ (ok (granted uri value state), w'))
  unfolding services consent Registry.find_by_id client_id
  consent-approved decision client w w' uri value state f h = ground arith

  -- A consent for a stored client that is answered with a code was approved, for a redirect URI
  -- that is registered for the client, which may use the grant. The answer has that URI, the
  -- state of the form and a new code, which is stored, unconsumed and bound to the client, the
  -- user, the redirect URI and the S256 challenge of the form, with a scope within what the
  -- client is allowed.
  pub consent-granted :
      (decision : ConsentDecision) (client : Client) (w w' : World) (uri value : String)
      (state : Option String)
      → Dict.get w.clients decision.client_id ≡ some client
      → consent env decision w ≡ (ok (granted uri value state), w')
      → (decision.approved ≡ true)
        × (uri ≡ decision.redirect_uri)
        × (state ≡ decision.state)
        × (contains client.redirect_uris uri ≡ true)
        × (supports_grant client authorization_code ≡ true)
        × (value ≡ env.token_at w.draws 32)
        × IsCodeOf client decision w (Dict.get w'.auth_codes value)
  consent-granted decision client w w' uri value state f h =
      let (a, c, g, run) = consent-approved decision client w w' uri value state f h in
      let (scope, challenge, ec, es, eu, et, ev, stored) =
        grant_code-ok client decision w w' uri value state run in
      let (bound, named) = challenge-ok decision challenge ec in
      (
        a,
        eu,
        et,
        ap (contains client.redirect_uris) eu ∙ c,
        g,
        ev,
        subst (IsCodeOf client decision w) (sym stored) (
          refl,
          granted_scope-within decision.scope client.allowed_scopes scope es,
          bound,
          named,
        ),
      )

  -- a form that denies changes nothing, whether it is answered or refused
  pub consent-denied :
      (decision : ConsentDecision) (w : World)
      → decision.approved ≡ false
      → (consent env decision w).1 ≡ w
  unfolding services consent Registry.find_by_id client_id
  consent-denied decision w h = ground arith
