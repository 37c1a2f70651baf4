-- ===== src/Rest/UserInfo.antt =====
-- rest/userinfo_controller.py: `GET /userinfo`
use oauth_lab.Prelude.{String, Option, none, some, [], ◌∷◌, Bool, not, if◌then◌else◌}
use oauth_lab.Flow.{pure, ◌>>=◌}
use oauth_lab.Dict.{Dict, put}
use oauth_lab.World.{Service}
use oauth_lab.World.Env.{Env}
use oauth_lab.Service.Session.{UserInfoResult, user_info}
use oauth_lab.Http.{Response, Value, string, boolean, null, json_response, put_some}
use oauth_lab.Http.Texts.{lower, starts_with, drop, strip}

abbrev pub or_null : Option Bool → Value
or_null none = null
or_null (some b) = boolean b

abbrev put_email : Option String → Option Bool → Dict Value → Dict Value
put_email none verified body = body
put_email (some email) verified body =
    put (put body "email" (string email)) "email_verified" (or_null verified)

unfoldable pub user_body : UserInfoResult → Dict Value
unfolding put
user_body result =
    let body = ("sub", string result.sub) ∷ [] in
    put_email result.email result.email_verified
      (put_some string result.preferred_username "preferred_username" body)

-- the answer to a request without a bearer token
abbrev pub bearer_required : Response
bearer_required =
    json_response 401 (("WWW-Authenticate", "Bearer realm=\"oauth-lab\"") ∷ []) (
      ("error", string "invalid_token")
      ∷ ("error_description", string "Bearer token required")
      ∷ [])

module _ (env : Env) where
  unfoldable pub answer_token : String → Service Response
  answer_token token = do
    result ← user_info env token
    pure (json_response 200 (("Cache-Control", "no-store") ∷ []) (user_body result))

  unfoldable pub userinfo : Option String → Service Response
  unfolding lower starts_with
  userinfo none = pure bearer_required
  userinfo (some header) =
      if not (starts_with (lower header) "bearer ")
      then pure bearer_required
      else answer_token (strip (drop 7 header))
