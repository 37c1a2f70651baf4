-- ===== src/Web/Consent.antt =====
-- web/consent_controller.py: `POST /consent`
use oauth_lab.Prelude.{String, Option, [], ◌∷◌}
use oauth_lab.Flow.{pure, ◌>>=◌}
use oauth_lab.World.{Service}
use oauth_lab.World.Env.{Env}
use oauth_lab.Service.Session.{SessionData}
use oauth_lab.Service.Consent.{ConsentDecision, ConsentResult, granted, denied, consent}
use oauth_lab.Http.{Response, redirect_response}
use oauth_lab.Http.Url.{encode_authorization_response}
use oauth_lab.Web.{SessionOrResponse, session, instead, is_approval, require_session_with_csrf}

pub record ConsentForm : Type 0 where
  pub decision : String
  pub csrf_token : String
  pub client_id : String
  pub redirect_uri : String
  pub scope : Option String
  pub state : Option String
  pub code_challenge : String
  pub code_challenge_method : String

unfoldable pub decision_of : SessionData → ConsentForm → ConsentDecision
decision_of s form = record {
  approved = is_approval form.decision;
  user_sub = s.user_sub;
  client_id = form.client_id;
  redirect_uri = form.redirect_uri;
  scope = form.scope;
  state = form.state;
  code_challenge = form.code_challenge;
  code_challenge_method = form.code_challenge_method;
}

module _ (env : Env) where
  unfoldable pub target_url : ConsentResult → String
  unfolding encode_authorization_response
  target_url (denied redirect_uri description state) =
      encode_authorization_response redirect_uri
        (("error", "access_denied") ∷ ("error_description", description) ∷ []) state env.issuer
  target_url (granted redirect_uri code state) =
      encode_authorization_response redirect_uri (("code", code) ∷ []) state env.issuer

  -- the part with a session
  abbrev pub consent_for : ConsentForm → SessionOrResponse → Service Response
  consent_for form (instead response) = pure response
  consent_for form (session s) = do
    result ← consent env (decision_of s form)
    pure (redirect_response (target_url result))

  unfoldable pub consent_submit : Option String → ConsentForm → Service Response
  unfolding decision_of target_url
  consent_submit session_cookie form = do
    guarded ← require_session_with_csrf env session_cookie form.csrf_token
    consent_for form guarded
