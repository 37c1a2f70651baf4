-- ===== src/Http.antt =====
-- What the controllers of adapter/inbound/rest and adapter/inbound/web answer with, and the exception
-- handler that answers for what the use cases raise (rest/exception_handler.py).
pub mod Texts
pub mod Url
pub mod Challenge
use oauth_lab.Prelude.{ℕ, String, Option, none, some, List, [], ◌∷◌, Bool, if◌then◌else◌}
use oauth_lab.Flow.{Outcome, ok, raised}
use oauth_lab.Dict
use oauth_lab.Dict.{Dict, put}
use oauth_lab.Domain.Errors.{
  ErrorClass, invalid_client, invalid_token, error_code, Message, OauthError, Exception, oauth,
}

-- The values of a JSON body, and the arguments of a template.
pub data Value : Type 0 where
  string : String → Value
  number : ℕ → Value
  boolean : Bool → Value
  strings : List String → Value
  null : Value

-- A `JSONResponse`, an `HTMLResponse` of a rendered template, or a body that nobody reads.
pub data Content : Type 0 where
  json : Dict Value → Content
  page : String → Dict Value → Content
  no_content : Content

-- the arguments of `set_cookie`
pub record Cookie : Type 0 where
  pub key : String
  pub value : String
  pub httponly : Bool
  pub samesite : String
  pub secure : Bool
  pub max_age : ℕ

pub record Response : Type 0 where
  pub status : ℕ
  pub headers : Dict String
  pub content : Content
  pub cookie : Option Cookie

abbrev pub json_response : ℕ → Dict String → Dict Value → Response
json_response status headers body = record {
  status = status;
  headers = headers;
  content = json body;
  cookie = none;
}

abbrev pub html_response : ℕ → String → Dict Value → Response
html_response status template args = record {
  status = status;
  headers = [];
  content = page template args;
  cookie = none;
}

-- `RedirectResponse(url=url, status_code=303)`, with the URL as the controller passes it
abbrev pub redirect_response : String → Response
redirect_response url = record {
  status = 303;
  headers = ("Location", url) ∷ [];
  content = no_content;
  cookie = none;
}

-- an entry that is there only with a value, as the `if ... is not None` of the controllers
abbrev pub put_some : {A : Type 0} → (A → Value) → Option A → String → Dict Value → Dict Value
put_some f none k body = body
put_some f (some a) k body = put body k (f a)

abbrev pub no_store_headers : Dict String
no_store_headers = ("Cache-Control", "no-store") ∷ ("Pragma", "no-cache") ∷ []

-- `_HTTP_STATUS_BY_ERROR_CODE`
abbrev pub http_status_by_error_code : Dict ℕ
http_status_by_error_code =
    ("invalid_client", 401)
    ∷ ("invalid_token", 401)
    ∷ ("server_error", 500)
    ∷ ("temporarily_unavailable", 503)
    ∷ []

-- `d.get(k, default)`
abbrev pub get_or : {V : Type 0} → Dict V → String → V → V
get_or d k default = elim (Dict.get d k) [ none ↦ default | some v ↦ v ]

-- the header that is set by the two `isinstance` tests
unfoldable pub challenge_headers : ErrorClass → Dict String → Dict String
unfolding put
challenge_headers invalid_client headers =
    put headers "WWW-Authenticate" "Basic realm=\"oauth-lab\""
challenge_headers invalid_token headers =
    put headers "WWW-Authenticate" "Bearer realm=\"oauth-lab\", error=\"invalid_token\""
challenge_headers _ headers = headers

-- an entry that is there only with a text that is not empty
abbrev pub put_text : Option String → String → Dict Value → Dict Value
put_text none k body = body
put_text (some String.[]) k body = body
put_text (some (String.◌∷◌ c s)) k body = put body k (string (String.◌∷◌ c s))

-- What a description is rendered as (it may hold a `repr` or a text of PyJWT).
abbrev pub Render : Type 0
Render = Message → String

abbrev pub option_text : {A : Type 0} → (A → String) → Option A → Option String
option_text f none = none
option_text f (some a) = some (f a)

-- `handle` of `register_oauth_exception_handler`
unfoldable pub oauth_response : Render → OauthError → Response
unfolding put Dict.get
oauth_response render exc =
    let body = ("error", string (error_code exc.class)) ∷ [] in
    let described = put_text (option_text render exc.description) "error_description" body in
    let headers = challenge_headers exc.class no_store_headers in
    json_response (get_or http_status_by_error_code (error_code exc.class) 400) headers
      (put_text exc.uri "error_uri" described)

-- What the application sends: the framework answers for an exception that is no `OAuthError`.
unfoldable pub send : Render → (Exception → Response) → Outcome Exception Response → Response
send render unhandled (ok response) = response
send render unhandled (raised (oauth exc)) = oauth_response render exc
send render unhandled (raised e) = unhandled e
