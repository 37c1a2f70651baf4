-- ===== src/Service/Session/Claims.antt =====
-- Which claims `/userinfo` releases.
use oauth_lab.Prelude.{
  String, Option, some, Bool, true, not, ◌||◌, contains, is_some, ◌≡◌, arith, ap, ◌∙◌, sym,
}
use oauth_lab.Flow.{ok}
use oauth_lab.Flow.Inversion.{bind-eq-ok, or_raise-eq-ok, pure-eq-ok}
use oauth_lab.Dict
use oauth_lab.Domain.Client.{User}
use oauth_lab.Domain.Scope.{ScopeSet}
use oauth_lab.Jwt.{AccessTokenClaims, verify_access_token}
use oauth_lab.Memory.Registry
use oauth_lab.World.{World, on_users, services}
use oauth_lab.World.Env.{Env}
use oauth_lab.Service.Session.{UserInfoResult, user_info}

-- a claim that is there is one that the scope names
abbrev pub is_covered : {A : Type 0} → ScopeSet → String → Option A → Bool
is_covered granted name claim = not (is_some claim) || contains granted.scopes name

module _ (env : Env) where
  found-user :
      (sub : String) (w w' : World) (o : Option User)
      → on_users (Registry.find_by_sub sub) w ≡ (ok o, w')
      → (o ≡ Dict.get w.users sub) × (w' ≡ w)
  unfolding services Registry.find_by_sub
  found-user sub w w' o h = (cc, cc)

  -- An answer of `/userinfo` is for an access token that verifies. The user is the one that is
  -- stored under the subject of the token, and the name, the address and its verification are there only where the
  -- scope of the token has `profile` or `email`.
  pub user_info-covered :
      (token : String) (w w' : World) (info : UserInfoResult)
      → user_info env token w ≡ (ok info, w')
      → (claims : AccessTokenClaims) × (w1 : World) × (sub : String) × (user : User)
        × (verify_access_token env token w ≡ (ok claims, w1))
        × (claims.sub ≡ some sub)
        × (Dict.get w1.users sub ≡ some user)
        × (info.sub ≡ user.sub)
        × (is_covered claims.scope "profile" info.preferred_username ≡ true)
        × (is_covered claims.scope "email" info.email ≡ true)
        × (is_covered claims.scope "email" info.email_verified ≡ true)
  unfolding user_info
  user_info-covered token w w' info h =
      let (claims, w1, e1, h1) = bind-eq-ok _ _ h in
      let (sub, e2, h2) = or_raise-eq-ok _ _ _ h1 in
      let (o, w2, e3, h3) = bind-eq-ok _ _ h2 in
      let (user, e4, h4) = or_raise-eq-ok _ _ _ h3 in
      let (out, _) = pure-eq-ok _ info h4 in
      let (stored, _) = found-user sub w1 w2 o e3 in
      (
        claims,
        w1,
        sub,
        user,
        e1,
        e2,
        sym stored ∙ e4,
        ap (λ q. q.sub) out,
        ground (arith, out),
        ground (arith, out),
        ground (arith, out),
      )
