-- ===== src/Tests/HttpTests.antt =====
-- Examples of the controllers.
use Prim.Native.String.{◌++◌}
use oauth_lab.Prelude.{
  ◌+◌, String, none, some, [], ◌∷◌, map, true, false, contains, is_some, nat_eq, split_on, str_len,
  ◌≡◌, refl, arith, if◌then◌else◌,
}
use oauth_lab.Prelude.Patterns.{every_char}
use oauth_lab.Flow.{ok}
use oauth_lab.Dict
use oauth_lab.Domain.Errors.{OauthError, invalid_client, text, error_code}
use oauth_lab.Domain.Client.{grant_types}
use oauth_lab.ClientAuth.{post}
use oauth_lab.Memory.Registry
use oauth_lab.Service.Authorize.{AuthorizeRequest}
use oauth_lab.Service.Session.{login, verify_session}
use oauth_lab.Service.Device.{generate_user_code}
use oauth_lab.Service.Device.UserCodes.{is_consonant, generate_user_code-bounds}
use oauth_lab.Http.{Render, Response, string, redirect_response, oauth_response}
use oauth_lab.Http.Challenge.{expected_status, entry, oauth_response-by_class}
use oauth_lab.Http.Texts.{occurs, starts_with}
use oauth_lab.Prelude.{is_ascii}
use oauth_lab.Http.Url.{quote_plus, pair_text, response_query, encode_authorization_response}
use oauth_lab.Http.Url.Encoded.{stands_for, encode_authorization_response-pieces}
use oauth_lab.Rest.Discovery.{ServerMetadata, oauth_metadata, openid_metadata}
use oauth_lab.Rest.Discovery.Advertised.{listed, is_run, grant_types-advertised}
use oauth_lab.Web.Login.{login_submit, login_form, accepted_login}
use oauth_lab.Web.Login.Targets.{is_local, login_submit-targets}
use oauth_lab.Web.Authorize.{authorize_endpoint}
use oauth_lab.Web.Authorize.Resumed.{authorize_endpoint-not_resumed}
use oauth_lab.Web.Consent.{ConsentForm, consent_submit}
use oauth_lab.Web.Device.{device_consent_submit}
use oauth_lab.Web.Guarded.{found_session, is_genuine, is_turned_away, forms-guarded}
use oauth_lab.Tests.{program, env, world, verifier_text}

abbrev render : Render
render m = "message"

abbrev refused : OauthError
refused = record { class = invalid_client; description = some (text "unknown client"); uri = none }

oauth_response-by_class_example :
    let response = oauth_response render refused in
    (response.status ≡ expected_status refused.class)
    × ((is_some (Dict.get response.headers "WWW-Authenticate") ≡ nat_eq response.status 401)
        × ((Dict.get response.headers "Cache-Control" ≡ some "no-store")
            × (entry response.content "error" ≡ some (string (error_code refused.class)))))
oauth_response-by_class_example = oauth_response-by_class render refused

abbrev pub form : ConsentForm
form = record {
  decision = "approve";
  csrf_token = "forged";
  client_id = "app";
  redirect_uri = "https://app/cb";
  scope = none;
  state = some "xyz";
  code_challenge = verifier_text;
  code_challenge_method = "S256";
}

forged :
    is_genuine (found_session (verify_session env (some "cookie") world).0) form.csrf_token ≡ false
unfolding program is_ascii
forged = refl

forms-guarded_example :
    let consented = consent_submit env (some "cookie") form world in
    let decided =
      device_consent_submit env (some "cookie") form.csrf_token "XXXX-XXXX" "approve" world in
    ((consented.1 ≡ world) × (is_turned_away consented.0 ≡ true))
    × ((decided.1 ≡ world) × (is_turned_away decided.0 ≡ true))
forms-guarded_example = forms-guarded env (some "cookie") form "XXXX-XXXX" "approve" world forged

encode_authorization_response-pieces_example :
    let query = response_query (("code", "a&b") ∷ []) (some "x=y&code=z") "https://as" in
    (encoded : String) × ((encode_authorization_response "https://app/cb"
          (("code", "a&b") ∷ [])
          (some "x=y&code=z")
          "https://as"
        ≡ "https://app/cb" ++ (if occurs "?" "https://app/cb" then "&" else "?") ++ encoded)
      × ((split_on b'&' encoded ≡ map pair_text query)
          × ((Dict.get query "iss" ≡ some "https://as")
              × (Dict.get query "code"
                  ≡ stands_for (("code", "a&b") ∷ []) (some "x=y&code=z") "https://as" "code"))))
encode_authorization_response-pieces_example =
    encode_authorization_response-pieces "https://app/cb" (("code", "a&b") ∷ []) (some "x=y&code=z")
      "https://as" "code"

-- the answer to a login with the right password
abbrev logged_in : Response
logged_in = accepted_login env true 3600 "/device" "cookie"

login_submit-targets_example :
    (is_local "/device" ≡ true)
    × ((value : String) × (((login env "ann" "secret" world).0 ≡ ok value)
          × (logged_in.cookie
              ≡ some (record {
                key = "oauth_lab_session";
                value = value;
                httponly = true;
                samesite = "lax";
                secure = true;
                max_age = 3600;
              }))))
unfolding program login login_submit Registry.find_by_username Registry.first_named
login_submit-targets_example =
    login_submit-targets env true 3600 "ann" "secret" "/device" "/device" world logged_in refl refl

abbrev request : AuthorizeRequest
request = record {
  response_type = some "code";
  client_id = some "app";
  redirect_uri = some "https://app/cb";
  scope = some "read";
  state = some "xyz";
  code_challenge = some verifier_text;
  code_challenge_method = none;
}

authorize_endpoint-not_resumed_example :
    (authorize_endpoint env render "https://as/authorize" request none world
      ≡ (ok (redirect_response ("/login?next=" ++ quote_plus "https://as/authorize")), world))
    × (login_form (some "https://as/authorize") ≡ login_form none)
unfolding program starts_with
authorize_endpoint-not_resumed_example =
    authorize_endpoint-not_resumed env render "https://as/authorize" request none world refl refl

generate_user_code-bounds_example :
    (front back : String) × ((generate_user_code env world
        ≡ (ok (front ++ "-" ++ back), record world { draws = world.draws + 8 }))
      × ((str_len front ≡ 4)
          × ((str_len back ≡ 4)
              × ((every_char is_consonant (front ++ back) ≡ true)
                  × (str_len (front ++ "-" ++ back) ≡ 9)))))
generate_user_code-bounds_example = generate_user_code-bounds env (λ n. omega arith) world

abbrev metadata : ServerMetadata
metadata = record {
  issuer = "https://as/";
  grants = grant_types;
  client_auth = post ∷ [];
  scopes_supported = "read" ∷ [];
  id_token_signing_alg = "RS256";
}

grant_types-advertised_example :
    (contains (listed (Dict.get (oauth_metadata metadata) "grant_types_supported")) "refresh_token"
      ≡ is_run metadata.grants "refresh_token")
    × (contains
          (listed (Dict.get (openid_metadata metadata) "grant_types_supported"))
          "refresh_token"
        ≡ is_run metadata.grants "refresh_token")
grant_types-advertised_example = grant_types-advertised metadata "refresh_token"
