-- ===== src/Domain/AuthorizationCode.antt =====
-- oauth_lab/domain/model/authorization_code.py. A `datetime` is a number of microseconds.
use oauth_lab.Prelude.{ℕ, String, Option, some, Bool, leb, is_some, if◌then◌else◌}
use oauth_lab.Flow.{Outcome, ok, raised}
use oauth_lab.Domain.Errors.{Exception, failure, invalid_grant}
use oauth_lab.Domain.Scope.{ScopeSet}
use oauth_lab.Domain.Pkce.{PkceChallenge}
use oauth_lab.Domain.Client.{ClientId}

pub record AuthorizationCode : Type 0 where
  pub value : String
  pub client_id : ClientId
  pub user_sub : String
  pub redirect_uri : String
  pub scope : ScopeSet
  pub pkce_challenge : PkceChallenge
  pub issued_at : ℕ
  pub expires_at : ℕ
  pub consumed_at : Option ℕ
  pub nonce : Option String

unfoldable pub is_expired : AuthorizationCode → ℕ → Bool
is_expired c now = leb c.expires_at now

unfoldable pub is_consumed : AuthorizationCode → Bool
is_consumed c = is_some c.consumed_at

unfoldable pub consume : AuthorizationCode → ℕ → Outcome Exception AuthorizationCode
unfolding is_consumed is_expired
consume c now =
    if is_consumed c
    then raised (failure invalid_grant "authorization code has already been used")
    else if is_expired c now
    then raised (failure invalid_grant "authorization code has expired")
    else ok (record c { consumed_at = some now })
