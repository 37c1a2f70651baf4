-- ===== src/Web/Login/Targets.antt =====
-- Where a login leads.
use oauth_lab.Prelude.{
  ℕ, String, Option, none, some, Bool, true, false, not, ◌||◌, ◌&&◌, if◌then◌else◌, ◌==◌, ◌≡◌, refl,
  arith,
}
use oauth_lab.Flow.{ok, raised, Outcome}
use oauth_lab.World.{World}
use oauth_lab.World.Env.{Env}
use oauth_lab.Service.Session.{login}
use oauth_lab.Http.Texts.{starts_with}
use oauth_lab.Http.{Response}
use oauth_lab.Dict
use oauth_lab.Domain.Errors.{Exception, oauth}
use oauth_lab.Web.Login.{safe_next, login_submit, login_answer}

-- a path of this origin: one slash, and no second one behind it
abbrev pub is_local : String → Bool
is_local url = starts_with url "/" && not (starts_with url "//")

choice-is_local :
    (b : Bool) (url : String)
    → (b ≡ false → is_local url ≡ true)
    → is_local (if b then "/" else url) ≡ true
unfolding starts_with
choice-is_local true url h = refl
choice-is_local false url h = h refl

accepted-is_local :
    (url : String)
    → (url == "" || (not (starts_with url "/") || starts_with url "//")) ≡ false
    → is_local url ≡ true
accepted-is_local url h = ground arith

slash-is_local : is_local "/" ≡ true
unfolding starts_with
slash-is_local = refl

safe_next-is_local : (next : Option String) → is_local (safe_next next) ≡ true
unfolding safe_next
safe_next-is_local none = slash-is_local
safe_next-is_local (some url) = choice-is_local _ url (accepted-is_local url)

-- A text that is no local path is not followed.
pub safe_next-elsewhere : (url : String) → is_local url ≡ false → safe_next (some url) ≡ "/"
unfolding safe_next
safe_next-elsewhere url h = ground arith

module _ (env : Env) (cookie_secure : Bool) (cookie_max_age_seconds : ℕ) where
  answer-targets :
      (target username url : String) (o : Outcome Exception String) (response : Response)
      → is_local target ≡ true
      → login_answer env cookie_secure cookie_max_age_seconds target username o ≡ ok response
      → Dict.get response.headers "Location" ≡ some url
      → (is_local url ≡ true)
        × ((value : String) × ((o ≡ ok value)
              × (response.cookie
                  ≡ some (record {
                    key = "oauth_lab_session";
                    value = value;
                    httponly = true;
                    samesite = "lax";
                    secure = cookie_secure;
                    max_age = cookie_max_age_seconds;
                  }))))
  unfolding Dict.get
  answer-targets target username url (ok value) response l e h =
      (ground arith, (value, (refl, ground arith)))
  answer-targets target username url (raised (oauth x)) response l e h = ground arith
  answer-targets target username url (raised _) response l e h = cc

  -- A login that redirects has checked the credentials and sets the session cookie: it has the name
  -- of the session, the signed value that the login use case gave, no access from scripts, the
  -- same-site rule `lax`, and the configured flag and lifetime. It redirects to a path of this origin,
  -- whatever `next` the form names.
  pub login_submit-targets :
      (username password next url : String) (w : World) (response : Response)
      → (login_submit env cookie_secure cookie_max_age_seconds username password next w).0
        ≡ ok response
      → Dict.get response.headers "Location" ≡ some url
      → (is_local url ≡ true)
        × ((value : String) × (((login env username password w).0 ≡ ok value)
              × (response.cookie
                  ≡ some (record {
                    key = "oauth_lab_session";
                    value = value;
                    httponly = true;
                    samesite = "lax";
                    secure = cookie_secure;
                    max_age = cookie_max_age_seconds;
                  }))))
  unfolding login_submit Dict.get
  login_submit-targets username password next url w response e h =
      answer-targets (safe_next (some next)) username url (login env username password w).0 response
        (safe_next-is_local (some next)) e h
