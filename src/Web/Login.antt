-- ===== src/Web/Login.antt =====
-- web/login_controller.py: `GET` and `POST /login`
pub mod Targets
use oauth_lab.Prelude.{
  ℕ, String, Option, none, some, List, [], ◌∷◌, Bool, true, false, not, ◌||◌, ◌==◌, if◌then◌else◌,
}
use oauth_lab.Flow.{Outcome, ok, raised, pure}
use oauth_lab.Domain.Errors.{Exception, oauth, ErrorClass, invalid_credentials}
use oauth_lab.World.{World, Service}
use oauth_lab.World.Env.{Env}
use oauth_lab.Service.Session.{login}
use oauth_lab.Http.{Response, string, null, html_response, redirect_response}
use oauth_lab.Http.Texts.{starts_with}

unfoldable pub safe_next : Option String → String
unfolding starts_with
safe_next none = "/"
safe_next (some next_url) =
    if next_url == "" || (not (starts_with next_url "/") || starts_with next_url "//")
    then "/"
    else next_url

-- `GET /login`, for the parameter `next` of the query
unfoldable pub login_form : Option String → Response
login_form next =
    html_response 200 "login.html"
      (("next_url", string (safe_next next)) ∷ ("username", null) ∷ ("error", null) ∷ [])

abbrev pub session_cookie_name : String
session_cookie_name = "oauth_lab_session"

abbrev is_invalid_credentials : ErrorClass → Bool
is_invalid_credentials invalid_credentials = true
is_invalid_credentials _ = false

abbrev pub refused_login : String → String → Response
refused_login target username = html_response 401 "login.html" (
    ("next_url", string target)
    ∷ ("username", string username)
    ∷ ("error", string "Invalid username or password.")
    ∷ [])

module _ (env : Env) (cookie_secure : Bool) (cookie_max_age_seconds : ℕ) where
  abbrev pub accepted_login : String → String → Response
  accepted_login target cookie_value = record (redirect_response target) {
    cookie = some (record {
      key = session_cookie_name;
      value = cookie_value;
      httponly = true;
      samesite = "lax";
      secure = cookie_secure;
      max_age = cookie_max_age_seconds;
    });
  }

  -- `except InvalidCredentialsError`
  abbrev pub login_answer : String → String → Outcome Exception String → Outcome Exception Response
  login_answer target username (ok cookie_value) = ok (accepted_login target cookie_value)
  login_answer target username (raised (oauth e)) =
      if is_invalid_credentials e.class
      then ok (refused_login target username)
      else raised (oauth e)
  login_answer target username (raised e) = raised e

  -- `POST /login`
  unfoldable pub login_submit : String → String → String → Service Response
  unfolding safe_next
  login_submit username password next w =
      let target = safe_next (some next) in
      (
        login_answer target username (login env username password w).0,
        (login env username password w).1,
      )
