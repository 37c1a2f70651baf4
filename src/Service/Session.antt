-- ===== src/Service/Session.antt =====
-- adapter/outbound/session/itsdangerous_session_signer.py, application/service/login_service.py and
-- application/service/get_user_info_service.py
pub mod Claims
use oauth_lab.Prelude.{String, Option, none, some, Bool, true, ◌==◌, contains, if◌then◌else◌}
use oauth_lab.Flow.{pure, guard, or_raise, ◌>>=◌, ◌>>◌}
use oauth_lab.Domain.Errors.{failure, invalid_credentials, invalid_token}
use oauth_lab.Memory.Registry
use oauth_lab.Jwt.{verify_access_token}
use oauth_lab.World.{Service, on_users}
use oauth_lab.World.Env.{Env, SessionPayload}
use oauth_lab.World.Issuers.{token_urlsafe}

pub record SessionData : Type 0 where
  pub user_sub : String
  pub csrf_token : String

-- a text that is there and not empty
abbrev pub truthy : Option String → Option String
truthy none = none
truthy (some s) = if s == "" then none else some s

abbrev session_of : Option String → Option String → Option SessionData
session_of none csrf = none
session_of (some sub) none = none
session_of (some sub) (some csrf) = some (record { user_sub = sub; csrf_token = csrf })

abbrev payload_session : Option SessionPayload → Option SessionData
payload_session none = none
payload_session (some p) = session_of (truthy p.sub) (truthy p.csrf)

pub record UserInfoResult : Type 0 where
  pub sub : String
  pub preferred_username : Option String
  pub email : Option String
  pub email_verified : Option Bool

module _ (env : Env) where
  -- `ItsdangerousSessionSigner.verify`, at the moment of the call
  unfoldable pub verify_session : Option String → Service (Option SessionData)
  verify_session token w =
      pure
        (elim (truthy token) [
          | none ↦ none
          | some t ↦ payload_session (env.load_session w.reads t)
        ])
        w

  -- `LoginService.execute`: the cookie value
  unfoldable pub login : String → String → Service String
  login username password = do
    found ← on_users (Registry.find_by_username username)
    user ← or_raise found (failure invalid_credentials "invalid username or password")
    guard (env.verify_secret user.password_hash password)
        (failure invalid_credentials "invalid username or password")
    csrf_token ← token_urlsafe env 32
    pure (env.sign_session user.sub csrf_token)

  -- `GetUserInfoService.execute`
  unfoldable pub user_info : String → Service UserInfoResult
  user_info access_token = do
    claims ← verify_access_token env access_token
    sub ← or_raise claims.sub (failure invalid_token "access token has no `sub` claim")
    found ← on_users (Registry.find_by_sub sub)
    user ← or_raise found (failure invalid_token "access token subject is not a known user")
    let granted = claims.scope.scopes
    let email = if contains granted "email" then user.email else none
    pure (record {
      sub = user.sub;
      preferred_username = if contains granted "profile" then some user.username else none;
      email = email;
      email_verified = elim email [ none ↦ none | some e ↦ some true ];
    })
