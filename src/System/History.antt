-- ===== src/System/History.antt =====
-- Every request keeps what the writing steps keep, and so does every history of requests.
use oauth_lab.Prelude.{String, Option, none, some, List, [], ◌∷◌}
use oauth_lab.Flow.Keeps.{Keeps, keeps_rules}
use oauth_lab.Domain.Client.{Client}
use oauth_lab.World.{World}
use oauth_lab.Domain.DeviceCode.{DeviceCode}
use oauth_lab.Service.Authorize.{
  AuthorizeRequest, Settled, Validation, refused, settled, authorize, for_client, for_client_id,
  for_redirect_uri, for_validation, for_session, ask_user,
}
use oauth_lab.Service.Session.{SessionData, truthy}
use oauth_lab.Service.Consent.{ConsentDecision, consent}
use oauth_lab.Service.Device.{lookup_device_code, view}
use oauth_lab.System.{
  Server, Event, token, authorization, consent_form, login_form, userinfo, device_authorization,
  device_page, device_form, handle, run,
}
use oauth_lab.System.Preserve.{
  StepsKeep, now-Keeps, find_client-Keeps, find_user-Keeps, find_user_code-Keeps, issue_token-Keeps,
  session-Keeps, login-Keeps, user_info-Keeps,
}
use oauth_lab.World.Env.{Env}

module _ {env : Env} {P : World → Type 0} (k : StepsKeep env P) where
  for_session-Keeps :
      (c : Client) (r : AuthorizeRequest) (u : String) (s : Settled) (o : Option SessionData)
      → Keeps P (for_session env c r u s o)
  for_session-Keeps c r u s none = search keeps_rules
  for_session-Keeps c r u s (some d) = search (keeps_rules, find_user-Keeps k)

  ask_user-Keeps :
      (c : Client) (r : AuthorizeRequest) (u : String) (s : Settled) (o : Option String)
      → Keeps P (ask_user env c r u s o)
  unfolding ask_user
  ask_user-Keeps c r u s o = search (keeps_rules, session-Keeps k, for_session-Keeps)

  validation-Keeps :
      (c : Client) (r : AuthorizeRequest) (u : String) (o : Option String) (v : Validation)
      → Keeps P (for_validation env c r u o v)
  validation-Keeps c r u o (refused e m) = search keeps_rules
  validation-Keeps c r u o (settled s) = ask_user-Keeps c r u s o

  redirect_uri-Keeps :
      (c : Client) (r : AuthorizeRequest) (o u : Option String)
      → Keeps P (for_redirect_uri env c r o u)
  redirect_uri-Keeps c r o none = search keeps_rules
  redirect_uri-Keeps c r o (some u) = search (keeps_rules, validation-Keeps)

  client-Keeps :
      (r : AuthorizeRequest) (o : Option String) (id : String) (found : Option Client)
      → Keeps P (for_client env r o id found)
  client-Keeps r o id none = search keeps_rules
  client-Keeps r o id (some c) = redirect_uri-Keeps c r o (truthy r.redirect_uri)

  client_id-Keeps :
      (r : AuthorizeRequest) (o id : Option String) → Keeps P (for_client_id env r o id)
  client_id-Keeps r o none = search keeps_rules
  client_id-Keeps r o (some id) = search (keeps_rules, find_client-Keeps k, client-Keeps) depth 8

  authorize-Keeps : (r : AuthorizeRequest) (o : Option String) → Keeps P (authorize env r o)
  unfolding authorize
  authorize-Keeps r o = client_id-Keeps r o (truthy r.client_id)

  consent-Keeps : (d : ConsentDecision) → Keeps P (consent env d)
  unfolding consent
  consent-Keeps d = search (keeps_rules, find_client-Keeps k, k.granting) depth 16

  view-Keeps : (o : Option DeviceCode) → Keeps P (view env o)
  view-Keeps none = search keeps_rules
  view-Keeps (some c) = search (keeps_rules, now-Keeps k)

  lookup-Keeps : (s : String) → Keeps P (lookup_device_code env s)
  unfolding lookup_device_code
  lookup-Keeps s = search (keeps_rules, find_user_code-Keeps k, view-Keeps)

module _ (s : Server) {P : World → Type 0} (k : StepsKeep s.env P) where
  pub handle-Keeps : (e : Event) (w : World) → P w → P (handle s e w)
  unfolding handle
  handle-Keeps (token c r) w h =
      (issue_token-Keeps k s.decoder s.authenticators s.grants c r).from w h
  handle-Keeps (authorization r o) w h = (authorize-Keeps k r o).from w h
  handle-Keeps (consent_form d) w h = (consent-Keeps k d).from w h
  handle-Keeps (login_form u p) w h = (login-Keeps k u p).from w h
  handle-Keeps (userinfo t) w h = (user_info-Keeps k t).from w h
  handle-Keeps (device_authorization r) w h = (k.opening r).from w h
  handle-Keeps (device_page u) w h = (lookup-Keeps k u).from w h
  handle-Keeps (device_form d) w h = (k.deciding d).from w h

  pub run-Keeps : (es : List Event) (w : World) → P w → P (run s es w)
  unfolding run
  run-Keeps [] w h = h
  run-Keeps (e ∷ es) w h = run-Keeps es (handle s e w) (handle-Keeps e w h)
