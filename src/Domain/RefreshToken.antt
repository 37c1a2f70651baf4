-- ===== src/Domain/RefreshToken.antt =====
-- oauth_lab/domain/model/refresh_token.py
use oauth_lab.Prelude.{ℕ, String, Option, some, Bool, leb, is_some}
use oauth_lab.Domain.Scope.{ScopeSet}
use oauth_lab.Domain.Client.{ClientId}

pub record RefreshToken : Type 0 where
  pub value : String
  pub family_id : String
  pub client_id : ClientId
  pub user_sub : String
  pub scope : ScopeSet
  pub issued_at : ℕ
  pub expires_at : ℕ
  pub consumed_at : Option ℕ

unfoldable pub is_expired : RefreshToken → ℕ → Bool
is_expired t now = leb t.expires_at now

unfoldable pub is_consumed : RefreshToken → Bool
is_consumed t = is_some t.consumed_at

unfoldable pub consume : RefreshToken → ℕ → RefreshToken
consume t now = record t { consumed_at = some now }
