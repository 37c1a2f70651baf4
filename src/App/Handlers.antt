-- ===== src/App/Handlers.antt =====
-- What the handlers of the routes leave, as runs of the server.
use oauth_lab.Prelude.{
  String, Option, none, some, [], ◌∷◌, Bool, true, false, ◌≡◌, ◌∙◌, ap, sym, refl, arith,
  if◌then◌else◌, Bool-cases, inl, inr, not,
}
use oauth_lab.Flow.{Outcome, ok, raised, Flow, resume, pure, lift, ◌>>=◌}
use oauth_lab.Domain.Errors.{Exception}
use oauth_lab.ClientAuth.{ClientCredentials}
use oauth_lab.Token.{TokenRequest}
use oauth_lab.World.{World}
use oauth_lab.Service.IssueToken.{issue_token}
use oauth_lab.Service.Session.{SessionData, verify_session, user_info}
use oauth_lab.Service.Consent.{consent}
use oauth_lab.Service.Device.{DeviceCodeView, lookup_device_code, device_consent}
use oauth_lab.System.{Server, Event, userinfo, consent_form, device_form, handle, run}
use oauth_lab.Http.{redirect_response, json_response, no_store_headers}
use oauth_lab.Http.Texts.{lower, starts_with, drop, strip}
use oauth_lab.Rest.Token.{token_body}
use oauth_lab.Rest.UserInfo.{answer_token, bearer_required, user_body}
use oauth_lab.Rest.UserInfo as UserInfoRoute
use oauth_lab.Web.{is_approval}
use oauth_lab.Web.Consent.{ConsentForm, consent_submit, decision_of, target_url}
use oauth_lab.Web.Device.{render_view, render_code, device_consent_submit, success_page}
use oauth_lab.Web.Guarded.{found_session, is_genuine, forms-guarded, forms-handled}
use oauth_lab.App.Events.{token_events, bearer_events, page_events, form_events}

module _ {S E A B : Type 0} where
  resume-reads :
      (f : A → Flow S E B) (o : Outcome E A) (s : S)
      → ((a : A) (t : S) → (f a t).1 ≡ t)
      → (resume f o s).1 ≡ s
  resume-reads f (ok a) s h = h a s
  resume-reads f (raised e) s h = refl

  -- what only reads does not change the store
  bind-reads :
      (m : Flow S E A) (f : A → Flow S E B) (s : S)
      → ((a : A) (t : S) → (f a t).1 ≡ t)
      → ((m >>= f) s).1 ≡ (m s).1
  unfolding ◌>>=◌
  bind-reads m f s h = resume-reads f (m s).0 (m s).1 h

  pub bind-pure : (m : Flow S E A) (f : A → B) (s : S) → ((m >>= λ a. pure (f a)) s).1 ≡ (m s).1
  unfolding pure
  bind-pure m f s = bind-reads m (λ a. pure (f a)) s (λ a t. refl)

module _ (server : Server) where
  open server use {env, decoder, authenticators, grants}

  pub token-run :
      (creds : ClientCredentials) (o : Outcome Exception TokenRequest) (w : World)
      → ((lift o >>= λ request.
            issue_token env decoder authenticators grants creds request >>= λ result.
            pure (json_response 200 no_store_headers (token_body result)))
          w).1
        ≡ run server (token_events creds o) w
  unfolding ◌>>=◌ run handle
  token-run creds (raised e) w = refl
  token-run creds (ok request) w =
      bind-pure (issue_token env decoder authenticators grants creds request)
        (λ result. json_response 200 no_store_headers (token_body result)) w

  answer_token-run :
      (s : String) (w : World) → (answer_token env s w).1 ≡ run server (userinfo s ∷ []) w
  unfolding answer_token run handle
  answer_token-run s w =
      bind-pure (user_info env s)
        (λ result. json_response 200 (("Cache-Control", "no-store") ∷ []) (user_body result)) w

  if-run :
      (b : Bool) (s : String) (w : World)
      → ((if not b then pure bearer_required else answer_token env s) w).1
        ≡ run server (if b then userinfo s ∷ [] else []) w
  unfolding pure run
  if-run true s w = answer_token-run s w
  if-run false s w = refl

  pub bearer-run :
      (header : Option String) (w : World)
      → (UserInfoRoute.userinfo env header w).1 ≡ run server (bearer_events header) w
  unfolding UserInfoRoute.userinfo run pure
  bearer-run none w = refl
  bearer-run (some header) w =
      if-run (starts_with (lower header) "bearer ") (strip (drop 7 header)) w

  view-reads :
      (session_cookie : Option String) (user_code : String) (v : Option DeviceCodeView) (w : World)
      → (render_view env session_cookie user_code v w).1 ≡ w
  unfolding ◌>>=◌ verify_session
  view-reads session_cookie user_code none w = refl
  view-reads session_cookie user_code (some v) w = ground arith

  pub page-run :
      (session_cookie user_code : Option String) (w : World)
      → (render_code env session_cookie user_code w).1 ≡ run server (page_events user_code) w
  unfolding run handle pure
  page-run session_cookie none w = refl
  page-run session_cookie (some user_code) w =
      bind-reads (lookup_device_code env user_code) (render_view env session_cookie user_code) w
        (view-reads session_cookie user_code)

  -- a form that is turned away, or handled for the session
  form-run :
      (f : SessionData → Event) (found : Option SessionData) (csrf_token : String) (w w' : World)
      → (is_genuine found csrf_token ≡ false → w' ≡ w)
      → ((s : SessionData)
          → found ≡ some s
          → is_genuine (some s) csrf_token ≡ true
          → w' ≡ handle server (f s) w)
      → w' ≡ run server (form_events f found csrf_token) w
  unfolding run
  form-run f none csrf_token w w' refused handled = refused refl
  form-run f (some s) csrf_token w w' refused handled =
      elim (Bool-cases (is_genuine (some s) csrf_token)) [
        | inl e ↦ handled s refl e ∙ ap (λ b. run server (if b then f s ∷ [] else []) w) (sym e)
        | inr e ↦ refused e ∙ ap (λ b. run server (if b then f s ∷ [] else []) w) (sym e)
      ]

  pub consent-run :
      (session_cookie : Option String) (form : ConsentForm) (w : World)
      → (consent_submit env session_cookie form w).1
        ≡ run server
            (form_events
              (λ s. consent_form (decision_of s form))
              (found_session (verify_session env session_cookie w).0)
              form.csrf_token)
            w
  unfolding handle
  consent-run session_cookie form w =
      form-run (λ s. consent_form (decision_of s form)) _ form.csrf_token w _
        (λ e. (forms-guarded env session_cookie form "" "" w e).0.0)
        (λ s e g.
          ap (λ p. p.1) (forms-handled env session_cookie form "" "" s w e g).0
          ∙ bind-pure (consent env (decision_of s form))
              (λ result. redirect_response (target_url env result)) w)

  pub device_consent-run :
      (session_cookie : Option String) (csrf_token user_code decision : String) (w : World)
      → (device_consent_submit env session_cookie csrf_token user_code decision w).1
        ≡ run server
            (form_events
              (λ s. device_form (record {
                user_code = user_code;
                user_sub = s.user_sub;
                approved = is_approval decision;
              }))
              (found_session (verify_session env session_cookie w).0)
              csrf_token)
            w
  unfolding handle
  device_consent-run session_cookie csrf_token user_code decision w =
      let form : ConsentForm = record {
        decision = "";
        csrf_token = csrf_token;
        client_id = "";
        redirect_uri = "";
        scope = none;
        state = none;
        code_challenge = "";
        code_challenge_method = "";
      } in
      form-run _ _ csrf_token w _
        (λ e. (forms-guarded env session_cookie form user_code decision w e).1.0)
        (λ s e g.
          ap (λ p. p.1) (forms-handled env session_cookie form user_code decision s w e g).1
          ∙ bind-pure
              (device_consent env (record {
                user_code = user_code;
                user_sub = s.user_sub;
                approved = is_approval decision;
              }))
              (λ _. success_page) w)
