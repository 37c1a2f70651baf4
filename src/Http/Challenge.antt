-- ===== src/Http/Challenge.antt =====
-- The answers of the exception handler, by the class of the error.
use oauth_lab.Prelude.{
  ℕ, String, Option, none, some, false, nat_eq, ◌==◌, [], ◌∷◌, ◌≡◌, ◌∙◌, ap, sym, refl, arith,
  is_some,
}
use oauth_lab.Dict
use oauth_lab.Dict.{Dict, get-put}
use oauth_lab.Domain.Errors.{
  ErrorClass, invalid_request, invalid_client, invalid_grant, unauthorized_client,
  unsupported_grant_type, invalid_scope, server_error, temporarily_unavailable, access_denied,
  invalid_token, authorization_pending, slow_down, expired_token, invalid_credentials, OauthError,
  error_code,
}
use oauth_lab.Http.{
  Render, Content, json, page, no_content, Value, string, put_text, option_text, oauth_response,
  challenge_headers, no_store_headers, get_or, http_status_by_error_code,
}

-- the status of RFC 6749 and RFC 6750 for an error
abbrev pub expected_status : ErrorClass → ℕ
expected_status invalid_client = 401
expected_status invalid_token = 401
expected_status server_error = 500
expected_status temporarily_unavailable = 503
expected_status _ = 400

-- the entry of a JSON body
abbrev pub entry : Content → String → Option Value
entry (json body) k = Dict.get body k
entry (page template args) k = none
entry no_content k = none

class-answer :
    (c : ErrorClass)
    → let headers = challenge_headers c no_store_headers in
      (get_or http_status_by_error_code (error_code c) 400 ≡ expected_status c)
      × ((is_some (Dict.get headers "WWW-Authenticate") ≡ nat_eq (expected_status c) 401)
          × (Dict.get headers "Cache-Control" ≡ some "no-store"))
unfolding Dict.get error_code challenge_headers
class-answer invalid_request = (refl, (refl, refl))
class-answer invalid_client = (refl, (refl, refl))
class-answer invalid_grant = (refl, (refl, refl))
class-answer unauthorized_client = (refl, (refl, refl))
class-answer unsupported_grant_type = (refl, (refl, refl))
class-answer invalid_scope = (refl, (refl, refl))
class-answer server_error = (refl, (refl, refl))
class-answer temporarily_unavailable = (refl, (refl, refl))
class-answer access_denied = (refl, (refl, refl))
class-answer invalid_token = (refl, (refl, refl))
class-answer authorization_pending = (refl, (refl, refl))
class-answer slow_down = (refl, (refl, refl))
class-answer expired_token = (refl, (refl, refl))
class-answer invalid_credentials = (refl, (refl, refl))

put_text-error :
    (t : Option String) (k : String) (body : Dict Value) (v : Value)
    → (k == "error") ≡ false
    → Dict.get body "error" ≡ some v
    → Dict.get (put_text t k body) "error" ≡ some v
put_text-error none k body v n h = h
put_text-error (some String.[]) k body v n h = h
put_text-error (some (String.◌∷◌ c s)) k body v n h =
    ground (arith, get-put body k "error" (string (String.◌∷◌ c s)))

-- The exception handler answers an OAuth error with the status of its class, 401 for a client or a
-- token that is not accepted, 500 and 503 for a failure of the server and 400 for every other error,
-- and exactly a 401 carries a challenge. The body names the code of the error, whatever the
-- description and the URI are, and the answer is not to be stored.
pub oauth_response-by_class :
    (render : Render) (exc : OauthError)
    → let response = oauth_response render exc in
      (response.status ≡ expected_status exc.class)
      × ((is_some (Dict.get response.headers "WWW-Authenticate") ≡ nat_eq response.status 401)
          × ((Dict.get response.headers "Cache-Control" ≡ some "no-store")
              × (entry response.content "error" ≡ some (string (error_code exc.class)))))
unfolding oauth_response Dict.get
oauth_response-by_class render exc =
    let (status, (challenge, stored)) = class-answer exc.class in
    let code = string (error_code exc.class) in
    let described =
      put_text-error (option_text render exc.description) "error_description" (("error", code) ∷ [])
        code refl refl in
    (
      status,
      (
        challenge ∙ ap (λ n. nat_eq n 401) (sym status),
        (stored, put_text-error exc.uri "error_uri" _ code refl described),
      ),
    )
