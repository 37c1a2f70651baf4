-- ===== src/Grant/Scopes.antt =====
-- The grants that mint only an access token: whose scope it has, and that nothing is stored.
use oauth_lab.Prelude.{String, Option, none, some, true, false, ◌≡◌, ap, sym, ◌∙◌, refl, arith}
use oauth_lab.Flow.{is_raised, ok}
use oauth_lab.Flow.Inversion.{bind-eq-ok, lift-eq-ok, pure-eq-ok, guard-eq-ok, or_raise-eq-ok}
use oauth_lab.Domain.Scope.{ScopeSet, intersect}
use oauth_lab.Domain.Scope.Laws.{
  subset-Has, is_within, IsWithin, IsWithin-trans, IsWithin-is_within, intersect-IsWithin_left,
  intersect-IsWithin_right,
}
use oauth_lab.Domain.ScopeValidator.{grantable, grantable-IsWithin}
use oauth_lab.Flow.Keeps.{Keeps, keeps_rules}
use oauth_lab.Domain.Errors.{Exception}
use oauth_lab.Memory.Registry
use oauth_lab.Domain.Client.{Client, supports_grant, client_credentials, token_exchange, jwt_bearer}
use mathlib.Core.Path.{ap₂}
use oauth_lab.Jwt.Keeps.{validate-Keeps, assertion-Keeps}
use oauth_lab.Jwt.{SubjectTokenClaims, validate}
use oauth_lab.World.{World, services, on_issuers}
use oauth_lab.World.Env.{Env}
use oauth_lab.World.Frame.{same_stores, SameStores, issue-ok_SameStores}
use oauth_lab.Token.{TokenRequest, TokenIssuanceResult, required}
use oauth_lab.Token.Returned.{required-ok, require_grant-ok}
use oauth_lab.Grant.ClientCredentials
use oauth_lab.Grant.TokenExchange
use oauth_lab.Grant.TokenExchange.{derive_scope}
use oauth_lab.Grant.JwtBearer

derive_scope-bound :
    (request : TokenRequest) (claims : SubjectTokenClaims) (client : Client) (s : ScopeSet)
    → derive_scope request claims client ≡ ok s
    → IsWithin s (intersect claims.scope client.allowed_scopes)
unfolding derive_scope grantable
derive_scope-bound request claims client s h x m =
    ground (arith, subset-Has request.scope (intersect claims.scope client.allowed_scopes) x)

derive_scope-IsWithin :
    (request : TokenRequest) (claims : SubjectTokenClaims) (client : Client) (s : ScopeSet)
    → derive_scope request claims client ≡ ok s
    → IsWithin s claims.scope × IsWithin s client.allowed_scopes
unfolding derive_scope
derive_scope-IsWithin request claims client s h =
    let bound = intersect claims.scope client.allowed_scopes in
    let within : IsWithin s bound = derive_scope-bound request claims client s h in
    (
      IsWithin-trans s bound claims.scope within (intersect-IsWithin_left _ _),
      IsWithin-trans s bound client.allowed_scopes within (intersect-IsWithin_right _ _),
    )

some-inj : {A : Type 0} {a b : A} → some a ≡ some b → a ≡ b
some-inj h = cc

find_issuer-Keeps :
    {P : World → Type 0} (v : String) → Keeps P (on_issuers (Registry.find_by_issuer v))
unfolding services Registry.find_by_issuer
find_issuer-Keeps v = record { from = λ w h. h }

required-Keeps : {P : World → Type 0} (o : Option String) (e : Exception) → Keeps P (required o e)
unfolding required
required-Keeps none e = search keeps_rules
required-Keeps (some s) e = search keeps_rules

check_assertion-Keeps :
    (env : Env) {P : World → Type 0} (a : String) → Keeps P (JwtBearer.check_assertion env a)
unfolding JwtBearer.check_assertion
check_assertion-Keeps env a =
    search (keeps_rules, find_issuer-Keeps, required-Keeps, assertion-Keeps) depth 12

module _ (env : Env) where
  -- A client-credentials request that returns was made by a client that may use the grant. The
  -- scope of the answer lies within what the client is allowed; there is no refresh token and no ID
  -- token, and no repository is written to.
  pub client_credentials-bounds :
      (request : TokenRequest) (client : Client) (w w' : World) (r : TokenIssuanceResult)
      → ClientCredentials.execute env request client w ≡ (ok r, w')
      → (supports_grant client client_credentials ≡ true)
        × (is_within r.scope client.allowed_scopes ≡ true)
        × (r.refresh_token ≡ none)
        × (r.id_token ≡ none)
        × SameStores w w'
  unfolding ClientCredentials.execute
  client_credentials-bounds request client w w' r h =
      let (_, w1, e1, h1) = bind-eq-ok _ _ h in
      let (g, e2, h2) = lift-eq-ok _ _ h1 in
      let (a, w2, e3, h3) = bind-eq-ok _ _ h2 in
      let (out, last) = pure-eq-ok _ r h3 in
      let (allowed, same) = require_grant-ok client client_credentials w w1 _ e1 in
      (
        allowed,
        IsWithin-is_within r.scope g client.allowed_scopes (ap (λ q. q.scope) out)
            (grantable-IsWithin request.scope client.allowed_scopes e2),
        ap (λ q. q.refresh_token) out,
        ap (λ q. q.id_token) out,
        same_stores w w1 w2 w' same (issue-ok_SameStores env _ w1 w2 e3) last,
      )

  -- A token exchange with a subject token and its type that returns was made by a client that may
  -- use the grant, for a subject token that the validator accepts. The scope of the answer lies
  -- within the scope of that token and within what the client is allowed; there is no refresh
  -- token, and no repository is written to.
  pub token_exchange-bounds :
      (request : TokenRequest) (client : Client) (w w' : World) (r : TokenIssuanceResult)
      (token kind : String)
      → request.subject_token ≡ some token
      → request.subject_token_type ≡ some kind
      → TokenExchange.execute env request client w ≡ (ok r, w')
      → (supports_grant client token_exchange ≡ true)
        × ((claims : SubjectTokenClaims) × ((validate env token kind w).0 ≡ ok claims)
            × (is_within r.scope claims.scope ≡ true)
            × (is_within r.scope client.allowed_scopes ≡ true))
        × (r.refresh_token ≡ none)
        × SameStores w w'
  unfolding TokenExchange.execute
  token_exchange-bounds request client w w' r token kind es ek h =
      let (_, w1, e1, h1) = bind-eq-ok _ _ h in
      let (st, w2, e2, h2) = bind-eq-ok _ _ h1 in
      let (sk, w3, e3, h3) = bind-eq-ok _ _ h2 in
      let (_, h4) = guard-eq-ok _ _ _ h3 in
      let (claims, w4, e4, h5) = bind-eq-ok _ _ h4 in
      let (g, e5, h6) = lift-eq-ok _ _ h5 in
      let (a, w5, e6, h7) = bind-eq-ok _ _ h6 in
      let (out, last) = pure-eq-ok _ r h7 in
      let (allowed, s1) = require_grant-ok client token_exchange w w1 _ e1 in
      let (eqt, s2) = required-ok request.subject_token _ token st w1 w2 es e2 in
      let (eqk, s3) = required-ok request.subject_token_type _ kind sk w2 w3 ek e3 in
      let before = s3 ∙ s2 ∙ s1 in
      let s4 : w4 ≡ w3 =
        ap (λ p. p.1) (sym e4) ∙ (validate-Keeps env {P = λ u. u ≡ w3} st sk).from w3 refl in
      let (below_subject, below_allowed) = derive_scope-IsWithin request claims client g e5 in
      (
        allowed,
        (
          claims,
          ap (λ u. (validate env token kind u).0) (sym before)
              ∙ ap₂ (λ x y. (validate env x y w3).0) (sym eqt) (sym eqk)
              ∙ ap (λ p. p.0) e4,
          IsWithin-is_within r.scope g claims.scope (ap (λ q. q.scope) out) below_subject,
          IsWithin-is_within r.scope g client.allowed_scopes (ap (λ q. q.scope) out) below_allowed,
        ),
        ap (λ q. q.refresh_token) out,
        same_stores w w4 w5 w' (s4 ∙ before) (issue-ok_SameStores env _ w4 w5 e6) last,
      )

  -- A jwt-bearer request that returns was made by a client that may use the grant, with an
  -- assertion that the check accepts. The scope of the answer lies within what the client is
  -- allowed; there is no refresh token, and no repository is written to.
  pub jwt_bearer-bounds :
      (request : TokenRequest) (client : Client) (w w' : World) (r : TokenIssuanceResult)
      (assertion : String)
      → request.assertion ≡ some assertion
      → JwtBearer.execute env request client w ≡ (ok r, w')
      → (supports_grant client jwt_bearer ≡ true)
        × (is_raised (JwtBearer.check_assertion env assertion w).0 ≡ false)
        × (is_within r.scope client.allowed_scopes ≡ true)
        × (r.refresh_token ≡ none)
        × SameStores w w'
  unfolding JwtBearer.execute
  jwt_bearer-bounds request client w w' r assertion ea h =
      let (_, w1, e1, h1) = bind-eq-ok _ _ h in
      let (st, e2, h2) = or_raise-eq-ok _ _ _ h1 in
      let (claims, w2, e3, h3) = bind-eq-ok _ _ h2 in
      let (g, e4, h4) = lift-eq-ok _ _ h3 in
      let (a, w3, e5, h5) = bind-eq-ok _ _ h4 in
      let (out, last) = pure-eq-ok _ r h5 in
      let (allowed, s1) = require_grant-ok client jwt_bearer w w1 _ e1 in
      let eq : st ≡ assertion = some-inj (sym e2 ∙ ea) in
      let s2 : w2 ≡ w1 =
        ap (λ p. p.1) (sym e3) ∙ (check_assertion-Keeps env {P = λ u. u ≡ w1} st).from w1 refl in
      (
        allowed,
        ap₂ (λ x u. is_raised (JwtBearer.check_assertion env x u).0) (sym eq) (sym s1)
            ∙ ap (λ p. is_raised p.0) e3,
        IsWithin-is_within r.scope g client.allowed_scopes (ap (λ q. q.scope) out)
            (grantable-IsWithin request.scope client.allowed_scopes e4),
        ap (λ q. q.refresh_token) out,
        same_stores w w2 w3 w' (s2 ∙ s1) (issue-ok_SameStores env _ w2 w3 e5) last,
      )
