-- ===== src/App/SingleUse.antt =====
-- A code that was exchanged over HTTP is never exchanged again.
use oauth_lab.Prelude.{
  String, some, true, false, List, ◌≡◌, refl, ap, sym, ◌∙◌, subst, arith, inl, inr,
}
use oauth_lab.Flow.{Outcome, ok, raised, is_raised}
use oauth_lab.Flow.Inversion.{bind-eq-ok, lift-eq-ok, pure-eq-ok, is_raised-cases}
use oauth_lab.Domain.Errors.{Exception}
use oauth_lab.Domain.Scope.{ScopeSet}
use oauth_lab.Domain.Client.{Client, GrantType, grant_type, authorization_code, device_code}
use oauth_lab.World.{World}
use oauth_lab.Token.{TokenRequest, TokenIssuanceResult}
use oauth_lab.Service.IssueToken.{run_grant}
use oauth_lab.Service.IssueToken.Authenticated.{issue_token-authenticated}
use oauth_lab.Grant.AuthorizationCode as Code
use oauth_lab.Grant.DeviceCode as Device
use oauth_lab.Dict
use oauth_lab.Domain.DeviceCode.{DeviceCode}
use oauth_lab.System.{Server, run}
use oauth_lab.System.Spent.{NeverDrawn}
use oauth_lab.System.SingleUse.{execute-single_use}
use oauth_lab.System.Redeemed.{IsKeyed}
use oauth_lab.System.RedeemedOnce.{execute-redeemed_once}
use oauth_lab.Http.{Response}
use oauth_lab.Rest.Token.{TokenForm, build_token_request, request_of, with_scope, with_grant}
use oauth_lab.Rest.Token as TokenRoute
use oauth_lab.App.{Request, Wiring, handler, serve_all, post_token}
use oauth_lab.App.Events.{all_events}
use oauth_lab.App.Runs.{serve_all-run}

with_scope-ok :
    (form : TokenForm) (g : GrantType) (o : Outcome Exception ScopeSet) (request : TokenRequest)
    → with_scope form g o ≡ ok request
    → (scope : ScopeSet) × (request ≡ request_of form g scope)
with_scope-ok form g (ok scope) request h = (scope, cc)
with_scope-ok form g (raised e) request h = cc

-- the request of a form that names a grant
request-of :
    (form : TokenForm) (s : String) (g : GrantType) (request : TokenRequest)
    → form.grant_type ≡ some s
    → grant_type s ≡ some g
    → build_token_request form ≡ ok request
    → (request.grant_type ≡ g)
      × (request.code ≡ form.code)
      × (request.device_code ≡ form.device_code)
unfolding build_token_request request_of
request-of form s g request e eg h = ground arith

module _ (server : Server) where
  open server use {env, decoder, authenticators, grants}

  -- the exchange behind an answer with tokens
  exchange-of :
      (form : TokenForm) (s : String) (g : GrantType) (w w' : World) (response : Response)
      → form.grant_type ≡ some s
      → grant_type s ≡ some g
      → TokenRoute.token env decoder authenticators grants form w ≡ (ok response, w')
      → (request : TokenRequest) × (client : Client) × (r : TokenIssuanceResult) × (request.code
          ≡ form.code)
        × (request.device_code ≡ form.device_code)
        × (run_grant env g request client w ≡ (ok r, w'))
  unfolding TokenRoute.token
  exchange-of form s g w w' response e eg h =
      let (request, er, h1) = lift-eq-ok _ _ h in
      let (r, w1, ei, h2) = bind-eq-ok _ _ h1 in
      let (_, same) = pure-eq-ok _ response h2 in
      let (a, _, _, run) =
        issue_token-authenticated env decoder authenticators grants _ request w w1 r ei in
      let (eq, ec, ed) = request-of form s g request e eg er in
      (
        request,
        a.client,
        r,
        ec,
        ed,
        subst (λ k. run_grant env k request a.client w ≡ (ok r, w')) eq
            (run ∙ λ i. (ok r, sym same i)),
      )

  -- a form whose exchange raises, for whichever client, is not answered with tokens
  refused-again :
      (form : TokenForm) (s : String) (g : GrantType) (w : World)
      → form.grant_type ≡ some s
      → grant_type s ≡ some g
      → ((request : TokenRequest) (client : Client)
          → request.code ≡ form.code
          → request.device_code ≡ form.device_code
          → is_raised (run_grant env g request client w).0 ≡ true)
      → is_raised (TokenRoute.token env decoder authenticators grants form w).0 ≡ true
  refused-again form s g w e eg refused =
      let o = TokenRoute.token env decoder authenticators grants form w in
      elim (is_raised-cases o.0) [
        | inl stop ↦ stop
        | inr (response, eq) ↦
            (let (request, client, r, ec, ed, again) =
                exchange-of form s g w o.1 response e eg (λ i. (eq i, o.1)) in
              let stop = refused request client ec ed in
              let answered : is_raised (run_grant env g request client w).0 ≡ false =
                ap (λ p. is_raised p.0) again in
              cc)
      ]

  module _ (wiring : Wiring) where
    -- A code that was exchanged over HTTP once is refused ever after: where `POST /token` answered a
    -- form of the grant type `authorization_code` that has the code, and any requests to the routes
    -- were handled since then, each further form of that grant type that has the code raises,
    -- whatever its other fields are. The random source is taken not to draw the value of the code
    -- again.
    pub token-single_use :
        (form form' : TokenForm) (v : String) (w w' : World) (response : Response)
        (requests : List Request)
        → form.grant_type ≡ some "authorization_code"
        → form'.grant_type ≡ some "authorization_code"
        → form.code ≡ some v
        → form'.code ≡ some v
        → NeverDrawn env v w'.draws
        → handler server wiring (post_token form) w ≡ (ok response, w')
        → is_raised
            (handler server wiring (post_token form') (serve_all server wiring requests w')).0
          ≡ true
    unfolding handler grant_type run_grant
    token-single_use form form' v w w' response requests g g' c c' fresh h =
        let (request, client, r, ec, _, first) =
          exchange-of form "authorization_code" authorization_code w w' response g refl h in
        refused-again form' "authorization_code" authorization_code _ g' refl
          (λ request' client' ec' ed'.
            ap (λ u. is_raised (Code.execute env request' client' u).0)
              (serve_all-run server wiring requests w')
            ∙ execute-single_use server request request' client client' v w w' r
                (all_events server wiring requests w') (ec ∙ c) (ec' ∙ c') fresh first)

    -- A device code that brought tokens over HTTP once brings none again: where `POST /token`
    -- answered a poll of a stored code with tokens, and any requests to the routes were handled one
    -- after the other since then, each further poll of that code raises, whatever its other fields are.
    -- Every code is taken to be stored under its own value at first, and the random source not to
    -- draw that value again.
    pub token-redeemed_once :
        (form form' : TokenForm) (v : String) (code : DeviceCode) (w w' : World)
        (response : Response) (requests : List Request)
        → form.grant_type ≡ some "urn:ietf:params:oauth:grant-type:device_code"
        → form'.grant_type ≡ some "urn:ietf:params:oauth:grant-type:device_code"
        → form.device_code ≡ some v
        → form'.device_code ≡ some v
        → IsKeyed w.device_codes
        → Dict.get w.device_codes.by_device_code v ≡ some code
        → NeverDrawn env v w'.draws
        → handler server wiring (post_token form) w ≡ (ok response, w')
        → is_raised
            (handler server wiring (post_token form') (serve_all server wiring requests w')).0
          ≡ true
    unfolding handler grant_type run_grant
    token-redeemed_once form form' v code w w' response requests g g' d d' keyed stored fresh h =
        let name : String = "urn:ietf:params:oauth:grant-type:device_code" in
        let (request, client, r, _, ed, first) =
          exchange-of form name device_code w w' response g refl h in
        refused-again form' name device_code _ g' refl (λ request' client' ec' ed'.
          ap (λ u. is_raised (Device.execute env request' client' u).0)
            (serve_all-run server wiring requests w')
          ∙ execute-redeemed_once server request request' client client' v code w w' r
              (all_events server wiring requests w') (ed ∙ d) (ed' ∙ d') keyed stored fresh first)
