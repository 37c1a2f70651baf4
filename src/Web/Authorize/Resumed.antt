-- ===== src/Web/Authorize/Resumed.antt =====
-- Where the browser comes back to after the login that the authorization endpoint asks for.
use Prim.Native.String.{◌++◌}
use oauth_lab.Prelude.{String, Option, none, some, false, [], ◌∷◌, ◌≡◌, ap, arith}
use oauth_lab.Flow.{ok, pure}
use oauth_lab.Flow.Inversion.{bind-ok}
use oauth_lab.World.{World}
use oauth_lab.World.Env.{Env}
use oauth_lab.Service.Authorize.{AuthorizeRequest, authentication_required, authorize}
use oauth_lab.Http.{Render, redirect_response, html_response, string, null}
use oauth_lab.Http.Texts.{starts_with}
use oauth_lab.Http.Url.{quote_plus}
use oauth_lab.Web.Login.{login_form, safe_next}
use oauth_lab.Web.Login.Targets.{is_local, safe_next-elsewhere}
use oauth_lab.Web.Authorize.{authorize_endpoint, authorize_response}

module _ (env : Env) (render : Render) where
  -- Where a request has to be authenticated first, the endpoint redirects to the login page with the
  -- URL of the request as `next`. The login page does not take it where the URL is no path, as the
  -- absolute URL that the framework gives: the form is the one for no `next` at all.
  pub authorize_endpoint-not_resumed :
      (url : String) (request : AuthorizeRequest) (session_cookie : Option String) (w : World)
      → starts_with url "/" ≡ false
      → authorize env request session_cookie w ≡ (ok authentication_required, w)
      → (authorize_endpoint env render url request session_cookie w
          ≡ (ok (redirect_response ("/login?next=" ++ quote_plus url)), w))
        × (login_form (some url) ≡ login_form none)
  unfolding authorize_endpoint authorize_response pure login_form safe_next
  authorize_endpoint-not_resumed url request session_cookie w h a =
      let elsewhere : is_local url ≡ false = ground arith in
      (
        bind-ok _ _ a,
        ap
            (λ t.
              html_response 200 "login.html"
                (("next_url", string t) ∷ ("username", null) ∷ ("error", null) ∷ []))
            (safe_next-elsewhere url elsewhere),
      )
