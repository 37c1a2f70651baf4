-- ===== src/Tests/ServicesTests.antt =====
-- Examples of the services around the grants.
use oauth_lab.Prelude.{String, some, none, true, false, contains, [], ◌∷◌, ◌≡◌, refl}
use oauth_lab.Flow.{is_raised, ok}
use oauth_lab.Dict
use oauth_lab.Domain.Scope.{is_subset_of}
use oauth_lab.Domain.Pkce.{pkce_challenge}
use oauth_lab.Domain.Client.{
  User, authorization_code, refresh_token, supports_grant, client_secret_post, grant_types,
}
use oauth_lab.ClientAuth.{ClientCredentials, AuthenticatedClient, post, basic, authenticate}
use oauth_lab.ClientAuth.Pipeline.{Cleared, authenticate-Cleared}
use oauth_lab.Token.{TokenRequest}
use oauth_lab.Grant.AuthorizationCode as Code
use oauth_lab.System.CodeFlow.{consent-then_execute}
use oauth_lab.Jwt.{AccessTokenClaims, verify_access_token}
use oauth_lab.Service.Session.{UserInfoResult, user_info}
use oauth_lab.Service.Session.Claims.{is_covered, user_info-covered}
use oauth_lab.World.{World}
use oauth_lab.Service.IssueToken.{registered, run_grant, issue_token}
use oauth_lab.Service.IssueToken.Authenticated.{issue_token-authenticated}
use oauth_lab.Service.Authorize.{AuthorizeRequest, ConsentPage, consent_required, authorize}
use oauth_lab.Service.Authorize.Redirects.{
  is_code, is_registered, authorize-redirect_is_registered, authorize-consent_page,
}
use oauth_lab.Service.Consent.{ConsentDecision, granted, consent}
use oauth_lab.Service.Consent.Issued.{IsCodeOf, consent-granted}
use oauth_lab.Tests.{
  program, env, decoder, client, user, world, challenge, request_for, answer, verifier_text,
}

abbrev credentials : ClientCredentials
credentials = record {
  basic_auth_header = none;
  form_client_id = some "app";
  form_client_secret = some "secret";
  client_assertion = none;
  client_assertion_type = none;
}

abbrev authenticated : AuthenticatedClient
authenticated = record { client = client; auth_method = client_secret_post }

let_in : authenticate env decoder (basic ∷ post ∷ []) credentials world ≡ (ok authenticated, world)
unfolding program
let_in = refl

authenticate-Cleared_example : (world ≡ world) × Cleared env decoder credentials world authenticated
authenticate-Cleared_example =
    authenticate-Cleared env decoder (basic ∷ post ∷ []) credentials world world {a = authenticated}
      let_in

abbrev after : World
after =
    (issue_token env decoder (post ∷ []) grant_types credentials (request_for refresh_token)
      world).1

issued :
    issue_token env decoder (post ∷ []) grant_types credentials (request_for refresh_token) world
    ≡ (ok answer, after)
unfolding program
issued = refl

issue_token-authenticated_example :
    (a : AuthenticatedClient) × Cleared env decoder credentials world a
    × (registered grant_types refresh_token ≡ true)
    × (run_grant env refresh_token (request_for refresh_token) a.client world ≡ (ok answer, after))
issue_token-authenticated_example =
    issue_token-authenticated env decoder (post ∷ []) grant_types credentials
      (request_for refresh_token) world after answer issued

abbrev asked : AuthorizeRequest
asked = record {
  response_type = some "code";
  client_id = some "app";
  redirect_uri = some "https://app/cb";
  scope = some "read";
  state = some "s";
  code_challenge = some verifier_text;
  code_challenge_method = none;
}

abbrev page : ConsentPage
page = record {
  client = client;
  user = user;
  requested_scope = record { scopes = "read" ∷ [] };
  redirect_uri = "https://app/cb";
  state = some "s";
  code_challenge = challenge;
  csrf_token = "csrf";
}

shown : authorize env asked (some "cookie") world ≡ (ok (consent_required page), world)
unfolding program
shown = refl

authorize-redirect_is_registered_example :
    is_registered (Dict.get world.clients "app") "https://app/cb" ≡ true
authorize-redirect_is_registered_example =
    authorize-redirect_is_registered env asked (some "cookie") world world "app" "https://app/cb"
      (consent_required page) refl shown refl

authorize-consent_page_example :
    (page.client ≡ client)
    × (is_code asked.response_type ≡ true)
    × (supports_grant client authorization_code ≡ true)
    × (asked.redirect_uri ≡ some page.redirect_uri)
    × (page.state ≡ asked.state)
    × (pkce_challenge page.code_challenge.value page.code_challenge.method ≡ ok page.code_challenge)
    × (is_subset_of page.requested_scope client.allowed_scopes ≡ true)
unfolding program
authorize-consent_page_example =
    authorize-consent_page env asked (some "cookie") world world "app" client page refl refl shown

abbrev decision : ConsentDecision
decision = record {
  approved = true;
  user_sub = "user-1";
  client_id = "app";
  redirect_uri = "https://app/cb";
  scope = some "read";
  state = some "s";
  code_challenge = verifier_text;
  code_challenge_method = "";
}

abbrev consented : World
consented = (consent env decision world).1

agreed : consent env decision world ≡ (ok (granted "https://app/cb" "t" (some "s")), consented)
unfolding program
agreed = refl

consent-granted_example :
    (decision.approved ≡ true)
    × ("https://app/cb" ≡ decision.redirect_uri)
    × (some "s" ≡ decision.state)
    × (contains client.redirect_uris "https://app/cb" ≡ true)
    × (supports_grant client authorization_code ≡ true)
    × ("t" ≡ env.token_at world.draws 32)
    × IsCodeOf env client decision world (Dict.get consented.auth_codes "t")
unfolding program
consent-granted_example =
    consent-granted env decision client world consented "https://app/cb" "t" (some "s") refl agreed

abbrev redemption : TokenRequest
redemption = record (request_for authorization_code) { code = some "t" }

consent-then_execute_example : is_raised (Code.execute env redemption client consented).0 ≡ false
unfolding program
consent-then_execute_example =
    consent-then_execute env decision client world consented "https://app/cb" "t" verifier_text
      (some "s") redemption refl agreed refl refl refl refl refl refl refl refl

abbrev info : UserInfoResult
info = record { sub = "user-1"; preferred_username = none; email = none; email_verified = none }

informed : user_info env "token" world ≡ (ok info, world)
unfolding program user_info verify_access_token
informed = refl

user_info-covered_example :
    (claims : AccessTokenClaims) × (w1 : World) × (sub : String) × (known : User)
    × (verify_access_token env "token" world ≡ (ok claims, w1))
    × (claims.sub ≡ some sub)
    × (Dict.get w1.users sub ≡ some known)
    × (info.sub ≡ known.sub)
    × (is_covered claims.scope "profile" info.preferred_username ≡ true)
    × (is_covered claims.scope "email" info.email ≡ true)
    × (is_covered claims.scope "email" info.email_verified ≡ true)
user_info-covered_example = user_info-covered env "token" world world info informed
