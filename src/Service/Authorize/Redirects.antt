-- ===== src/Service/Authorize/Redirects.antt =====
-- Where the authorization endpoint may send the browser, and what a consent page shows.
use oauth_lab.Prelude.{String, Option, none, some, Bool, true, false, contains, ◌==◌, ◌≡◌, arith}
use oauth_lab.Flow.{ok}
use oauth_lab.Dict
use oauth_lab.Domain.Scope.{is_subset_of}
use oauth_lab.Domain.Scope.Laws.{IsWithin-refl, IsWithin-subset}
use oauth_lab.Domain.Pkce.{pkce_challenge}
use oauth_lab.Domain.Client.{Client, supports_grant, authorization_code, client_id}
use oauth_lab.Memory.Registry
use oauth_lab.World.{World, services}
use oauth_lab.World.Env.{Env}
use oauth_lab.Service.Session.{verify_session}
use oauth_lab.Service.Authorize.{
  AuthorizeRequest, AuthorizeResult, ConsentPage, authentication_required, consent_required,
  request_error, response_error, authorize, ask_user, validate_request, validate_scope,
}

-- the address that a result names
abbrev pub redirect_of : AuthorizeResult → Option String
redirect_of authentication_required = none
redirect_of (consent_required page) = some page.redirect_uri
redirect_of (request_error e d) = none
redirect_of (response_error uri e d s) = some uri

abbrev pub is_code : Option String → Bool
is_code none = false
is_code (some kind) = kind == "code"

abbrev pub is_registered : Option Client → String → Bool
is_registered none uri = false
is_registered (some client) uri = contains client.redirect_uris uri

module _ (env : Env) where
  -- An answer to a request with a client id that names an address to redirect to, an error or a
  -- consent page, names one that is registered for that client; where the client is not known, no
  -- answer names one.
  pub authorize-redirect_is_registered :
      (request : AuthorizeRequest) (session : Option String) (w w' : World) (id uri : String)
      (answer : AuthorizeResult)
      → request.client_id ≡ some id
      → authorize env request session w ≡ (ok answer, w')
      → redirect_of answer ≡ some uri
      → is_registered (Dict.get w.clients id) uri ≡ true
  unfolding services authorize ask_user verify_session Registry.find_by_id Registry.find_by_sub
      client_id
  authorize-redirect_is_registered request session w w' id uri answer e h r = ground arith

  -- No answer of the authorization endpoint changes any state.
  pub authorize-reads :
      (request : AuthorizeRequest) (session : Option String) (w : World)
      → (authorize env request session w).1 ≡ w
  unfolding services authorize ask_user verify_session Registry.find_by_id Registry.find_by_sub
      client_id
  authorize-reads request session w = ground arith

  -- A consent page for a stored client is shown only for a request of the code flow, and only
  -- where the client may use the grant. It carries the client, the redirect URI and the state of
  -- the request, a valid PKCE challenge, and a scope within what the client is allowed.
  pub authorize-consent_page :
      (request : AuthorizeRequest) (session : Option String) (w w' : World) (id : String)
      (client : Client) (page : ConsentPage)
      → request.client_id ≡ some id
      → Dict.get w.clients id ≡ some client
      → authorize env request session w ≡ (ok (consent_required page), w')
      → (page.client ≡ client)
        × (is_code request.response_type ≡ true)
        × (supports_grant client authorization_code ≡ true)
        × (request.redirect_uri ≡ some page.redirect_uri)
        × (page.state ≡ request.state)
        × (pkce_challenge page.code_challenge.value page.code_challenge.method
            ≡ ok page.code_challenge)
        × (is_subset_of page.requested_scope client.allowed_scopes ≡ true)
  unfolding services authorize ask_user verify_session Registry.find_by_id Registry.find_by_sub
      client_id validate_request validate_scope pkce_challenge
  authorize-consent_page request session w w' id client page e f h = ground (
    arith,
    IsWithin-subset client.allowed_scopes client.allowed_scopes
        (IsWithin-refl client.allowed_scopes),
  )
