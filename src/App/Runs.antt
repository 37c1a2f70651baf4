-- ===== src/App/Runs.antt =====
-- The application over HTTP is a run of the server.
use oauth_lab.Prelude.{some, List, [], ◌∷◌, ◌++◌, ◌≡◌, ◌∙◌, ap, sym, refl}
use oauth_lab.Flow.{pure}
use oauth_lab.World.{World}
use oauth_lab.Service.Authorize.{authorize}
use oauth_lab.Service.Session.{truthy}
use oauth_lab.Service.Device.{request_device_authorization}
use oauth_lab.System.{Server, Event, handle, run}
use oauth_lab.Http.{json_response, no_store_headers}
use oauth_lab.Http.Texts.{strip}
use oauth_lab.Rest.Token as TokenRoute
use oauth_lab.Rest.Token.{extract_credentials, build_token_request}
use oauth_lab.Rest.Token.{token_body}
use oauth_lab.Rest.Device.{device_body, device_authorization}
use oauth_lab.Web.Login.{login_submit}
use oauth_lab.Web.Authorize.{authorize_endpoint, authorize_response}
use oauth_lab.Web.Device.{device_get, device_post, render_device_page}
use oauth_lab.App.{
  Request, Wiring, handler, serve, serve_all, post_token, post_device_authorization, get_userinfo,
  get_jwks, get_oauth_metadata, get_openid_metadata, get_healthz, get_authorize, get_login,
  post_login, post_consent, get_device, post_device, post_device_consent,
}
use oauth_lab.App.Events.{all_events, events_of}
use oauth_lab.App.Handlers.{
  bind-pure, token-run, bearer-run, page-run, consent-run, device_consent-run,
}

module _ (server : Server) where
  open server use {env}

  run-append :
      (es es' : List Event) (w : World)
      → run server (es ++ es') w ≡ run server es' (run server es w)
  unfolding run
  run-append [] es' w = refl
  run-append (e ∷ es) es' w = run-append es es' (handle server e w)

  module _ (wiring : Wiring) where
    pub serve-run :
        (request : Request) (w : World)
        → (serve server wiring request w).1 ≡ run server (events_of env wiring.upper request w) w
    unfolding serve handler TokenRoute.token device_authorization authorize_endpoint login_submit
        events_of run handle pure device_get device_post render_device_page
    serve-run (post_token form) w =
        token-run server (extract_credentials form) (build_token_request form) w
    serve-run (post_device_authorization request) w =
        bind-pure (request_device_authorization env request)
          (λ r. json_response 200 no_store_headers (device_body r)) w
    serve-run (get_userinfo header) w = bearer-run server header w
    serve-run (get_jwks accept) w = refl
    serve-run get_oauth_metadata w = refl
    serve-run get_openid_metadata w = refl
    serve-run get_healthz w = refl
    serve-run (get_authorize url request session_cookie) w =
        bind-pure (authorize env request session_cookie) (authorize_response env wiring.render url)
          w
    serve-run (get_login next) w = refl
    serve-run (post_login username password next) w = refl
    serve-run (post_consent session_cookie form) w = consent-run server session_cookie form w
    serve-run (get_device user_code session_cookie) w =
        page-run server session_cookie (truthy user_code) w
    serve-run (post_device user_code session_cookie) w =
        page-run server session_cookie (truthy (some (wiring.upper (strip user_code)))) w
    serve-run (post_device_consent session_cookie csrf_token user_code decision) w =
        device_consent-run server session_cookie csrf_token user_code decision w

    -- The application over HTTP is a run of the server: what a list of requests to the routes leaves,
    -- answered or refused, is what the entry points leave that they reach, one after the other. Each
    -- request reaches at most one, and the forms of the browser reach theirs only with the CSRF token
    -- of a session that verifies, for the user of that session.
    pub serve_all-run :
        (requests : List Request) (w : World)
        → serve_all server wiring requests w ≡ run server (all_events server wiring requests w) w
    unfolding serve_all all_events run
    serve_all-run [] w = refl
    serve_all-run (request ∷ requests) w =
        serve_all-run requests (serve server wiring request w).1
        ∙ ap (run server (all_events server wiring requests (serve server wiring request w).1))
            (serve-run request w)
        ∙ sym (
            run-append (events_of env wiring.upper request w)
              (all_events server wiring requests (serve server wiring request w).1) w)
