-- ===== src/Web/Authorize.antt =====
-- web/authorize_controller.py: `GET /authorize`
pub mod Resumed
use Prim.Native.String.{◌++◌}
use oauth_lab.Prelude.{String, Option, none, some, List, [], ◌∷◌, sorted}
use oauth_lab.Flow.{pure, ◌>>=◌}
use oauth_lab.Dict.{Dict}
use oauth_lab.Domain.Scope.{to_str}
use oauth_lab.World.{Service}
use oauth_lab.World.Env.{Env}
use oauth_lab.Service.Authorize.{
  AuthorizeRequest, AuthorizeResult, ConsentPage, authentication_required, consent_required,
  request_error, response_error, authorize,
}
use oauth_lab.Http.{
  Response, Value, string, strings, null, html_response, redirect_response, Render,
}
use oauth_lab.Http.Url.{quote_plus, encode_authorization_response}

abbrev pub or_null : Option String → Value
or_null none = null
or_null (some s) = string s

abbrev pub consent_args : ConsentPage → Dict Value
consent_args result =
    ("client_id", string result.client.id)
    ∷ ("username", string result.user.username)
    ∷ ("requested_scopes", strings (sorted result.requested_scope.scopes))
    ∷ ("scope_str", string (to_str result.requested_scope))
    ∷ ("redirect_uri", string result.redirect_uri)
    ∷ ("state", or_null result.state)
    ∷ ("code_challenge_value", string result.code_challenge.value)
    ∷ ("code_challenge_method", string result.code_challenge.method)
    ∷ ("csrf_token", string result.csrf_token)
    ∷ []

module _ (env : Env) (render : Render) where
  -- the answer for each result; `url` is `str(request.url)`
  unfoldable pub authorize_response : String → AuthorizeResult → Response
  unfolding quote_plus encode_authorization_response
  authorize_response url authentication_required =
      redirect_response ("/login?next=" ++ quote_plus url)
  authorize_response url (consent_required result) =
      html_response 200 "consent.html" (consent_args result)
  authorize_response url (request_error error_code description) =
      html_response 400 "error.html"
        (("error_code", string error_code) ∷ ("description", string (render description)) ∷ [])
  authorize_response url (response_error redirect_uri error description state) = redirect_response (
      encode_authorization_response redirect_uri
        (("error", error) ∷ ("error_description", render description) ∷ []) state env.issuer)

  unfoldable pub authorize_endpoint : String → AuthorizeRequest → Option String → Service Response
  authorize_endpoint url request session_cookie = do
    result ← authorize env request session_cookie
    pure (authorize_response url result)
