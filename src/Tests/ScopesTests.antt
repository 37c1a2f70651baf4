-- ===== src/Tests/ScopesTests.antt =====
-- Examples of the grants that mint only an access token, and of scopes, challenges and wire names.
use oauth_lab.Prelude.{some, none, true, false, not, ◌≡◌, ◌==◌, ◌&&◌, refl}
use oauth_lab.Prelude.Patterns.{is_token, chomp}
use oauth_lab.Flow.{is_raised, ok}
use oauth_lab.Domain.Scope.{is_scope_char, scope}
use oauth_lab.Domain.Scope.Laws.{is_within}
use oauth_lab.Domain.Scope.Accepted.{scope-accepts}
use oauth_lab.Domain.Pkce.{fits, is_unreserved, pkce_challenge, verify}
use oauth_lab.Domain.Pkce.Accepted.{pkce-accepts}
use oauth_lab.Domain.Client.{supports_grant, client_credentials, token_exchange, jwt_bearer}
use oauth_lab.Jwt.{SubjectTokenClaims, validate}
use oauth_lab.Token.{TokenIssuanceResult}
use oauth_lab.World.{World}
use oauth_lab.World.Frame.{SameStores}
use oauth_lab.Grant.ClientCredentials
use oauth_lab.Grant.TokenExchange
use oauth_lab.Grant.JwtBearer
use oauth_lab.Grant.Scopes.{client_credentials-bounds, token_exchange-bounds, jwt_bearer-bounds}
use oauth_lab.Tests.{program, env, client, world, challenge, request_for, answer, verifier_text}

abbrev access_only : TokenIssuanceResult
access_only = record answer { scope = some client.allowed_scopes; refresh_token = none }

abbrev exchanged : TokenIssuanceResult
exchanged = record answer {
  refresh_token = none;
  issued_token_type = some "urn:ietf:params:oauth:token-type:access_token";
}

abbrev credentials_world : World
credentials_world = (ClientCredentials.execute env (request_for client_credentials) client world).1

abbrev bearer_world : World
bearer_world = (JwtBearer.execute env (request_for jwt_bearer) client world).1

abbrev exchange_world : World
exchange_world = (TokenExchange.execute env (request_for token_exchange) client world).1

by_credentials :
    ClientCredentials.execute env (request_for client_credentials) client world
    ≡ (ok access_only, credentials_world)
unfolding program
by_credentials = refl

by_assertion :
    JwtBearer.execute env (request_for jwt_bearer) client world ≡ (ok access_only, bearer_world)
unfolding program
by_assertion = refl

by_exchange :
    TokenExchange.execute env (request_for token_exchange) client world
    ≡ (ok exchanged, exchange_world)
unfolding program
by_exchange = refl

client_credentials-bounds_example :
    (supports_grant client client_credentials ≡ true)
    × (is_within access_only.scope client.allowed_scopes ≡ true)
    × (access_only.refresh_token ≡ none)
    × (access_only.id_token ≡ none)
    × SameStores world credentials_world
client_credentials-bounds_example =
    client_credentials-bounds env (request_for client_credentials) client world credentials_world
      access_only by_credentials

jwt_bearer-bounds_example :
    (supports_grant client jwt_bearer ≡ true)
    × (is_raised (JwtBearer.check_assertion env "assertion" world).0 ≡ false)
    × (is_within access_only.scope client.allowed_scopes ≡ true)
    × (access_only.refresh_token ≡ none)
    × SameStores world bearer_world
jwt_bearer-bounds_example =
    jwt_bearer-bounds env (request_for jwt_bearer) client world bearer_world access_only "assertion"
      refl by_assertion

token_exchange-bounds_example :
    (supports_grant client token_exchange ≡ true)
    × ((claims : SubjectTokenClaims) × ((validate env "subject"
            "urn:ietf:params:oauth:token-type:access_token" world).0
          ≡ ok claims)
        × (is_within exchanged.scope claims.scope ≡ true)
        × (is_within exchanged.scope client.allowed_scopes ≡ true))
    × (exchanged.refresh_token ≡ none)
    × SameStores world exchange_world
token_exchange-bounds_example =
    token_exchange-bounds env (request_for token_exchange) client world exchange_world exchanged
      "subject" "urn:ietf:params:oauth:token-type:access_token" refl refl by_exchange

scope-accepts_example : is_raised (scope "read\n") ≡ not (is_token is_scope_char (chomp "read\n"))
scope-accepts_example = scope-accepts "read\n"

pkce-accepts_example :
    (is_raised (pkce_challenge verifier_text "S256")
      ≡ not
          ("S256" == "S256" && fits verifier_text && is_token is_unreserved (chomp verifier_text)))
    × (verify env.s256 verifier_text challenge ≡ (
        fits verifier_text
        && is_token is_unreserved (chomp verifier_text)
        && env.s256 verifier_text == challenge.value))
pkce-accepts_example = pkce-accepts env.s256 verifier_text "S256" verifier_text challenge
