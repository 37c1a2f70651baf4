-- ===== src/Web/Guarded.antt =====
-- The forms that change state do so only for the session that they came from.
use oauth_lab.Prelude.{
  String, Option, none, some, Bool, true, false, ◌&&◌, ◌==◌, ◌≡◌, arith, eq_iff,
}
use oauth_lab.Flow.{Outcome, ok, raised}
use oauth_lab.Dict
use oauth_lab.Domain.Errors.{Exception}
use oauth_lab.World.{World, services}
use oauth_lab.World.Env.{Env}
use oauth_lab.Service.Session.{SessionData, verify_session}
use oauth_lab.Http.{Response}
use oauth_lab.Prelude.{is_ascii}
use oauth_lab.Web.{session, require_session_with_csrf}
use oauth_lab.Web.Consent.{ConsentForm, consent_submit, consent_for}
use oauth_lab.Web.Device.{device_consent_submit, device_consent_for}

-- the session of a cookie, once it is verified
abbrev pub found_session : Outcome Exception (Option SessionData) → Option SessionData
found_session (ok o) = o
found_session (raised e) = none

-- There is a session, and the text is the token that it was signed with.
abbrev pub is_genuine : Option SessionData → String → Bool
is_genuine none csrf_token = false
is_genuine (some s) csrf_token = is_ascii csrf_token && csrf_token == s.csrf_token

-- where the answer redirects to
abbrev pub location_of : Response → Option String
location_of response = Dict.get response.headers "Location"

abbrev goes_to : String → Option String → Bool
goes_to url none = false
goes_to url (some u) = u == url

-- an error, or a redirect to the login page
abbrev pub is_turned_away : Outcome Exception Response → Bool
is_turned_away (raised e) = true
is_turned_away (ok response) = goes_to "/login" (location_of response)

module _ (env : Env) (session_cookie : Option String) where
  -- A form whose cookie has no session, or whose token is not the one of the session, changes no
  -- state: it is answered with an error or a redirect to the login page, the consent form as the
  -- device consent form.
  pub forms-guarded :
      (form : ConsentForm) (user_code decision : String) (w : World)
      → is_genuine (found_session (verify_session env session_cookie w).0) form.csrf_token ≡ false
      → let consented = consent_submit env session_cookie form w in
        let decided =
          device_consent_submit env session_cookie form.csrf_token user_code decision w in
        ((consented.1 ≡ w) × (is_turned_away consented.0 ≡ true))
        × ((decided.1 ≡ w) × (is_turned_away decided.0 ≡ true))
  unfolding services consent_submit device_consent_submit require_session_with_csrf verify_session
      Dict.get
  forms-guarded form user_code decision w h = ground (arith, eq_iff "/login" "/login")

  -- A form with the token of its session is handled for the user of that session.
  pub forms-handled :
      (form : ConsentForm) (user_code decision : String) (s : SessionData) (w : World)
      → found_session (verify_session env session_cookie w).0 ≡ some s
      → is_genuine (some s) form.csrf_token ≡ true
      → (consent_submit env session_cookie form w ≡ consent_for env form (session s) w)
        × (device_consent_submit env session_cookie form.csrf_token user_code decision w
            ≡ device_consent_for env user_code decision (session s) w)
  unfolding services consent_submit device_consent_submit require_session_with_csrf verify_session
  forms-handled form user_code decision s w h g =
      ground (arith, eq_iff form.csrf_token s.csrf_token)
