-- ===== src/Sql/RefreshTokens.antt =====
-- sqlalchemy/refresh_token_repository.py, with `RefreshTokenRow` of orm/models.py
pub mod Revoked
pub mod Refines
pub mod Calls
pub mod Runs
use oauth_lab.Prelude.{
  ℕ, String, Option, none, some, List, Bool, not, ◌&&◌, ◌==◌, ltb, nat_eq, is_some, if◌then◌else◌,
  ◌≡◌, arith,
}
use oauth_lab.Flow.{Outcome, ok, Flow, raise, gets, lift, or_raise, pure, ◌>>=◌, ◌>>◌}
use oauth_lab.Domain.Errors.{and_then, Exception, failure, invalid_grant}
use oauth_lab.Domain.Scope.{ScopeSet, to_str}
use oauth_lab.Domain.Client.{client_id}
use oauth_lab.Domain.RefreshToken.{RefreshToken}
use oauth_lab.Sql.{
  AsRead, naive, Bind, IsZoneDropping, bind_nullable, bind_nullable-drops, read_scopes,
  select_where, execute_update, insert_row, transaction,
}

pub record Row : Type 0 where
  pub value : String
  pub family_id : String
  pub client_id : String
  pub user_sub : String
  pub scope : String
  pub issued_at : ℕ
  pub expires_at : ℕ
  pub consumed_at : Option ℕ

unfoldable pub to_domain : Row → Outcome Exception (AsRead RefreshToken)
to_domain row = and_then (client_id row.client_id) (λ id. and_then (read_scopes row.scope) (λ scope.
    ok (
      naive (record {
        value = row.value;
        family_id = row.family_id;
        client_id = id;
        user_sub = row.user_sub;
        scope = scope;
        issued_at = row.issued_at;
        expires_at = row.expires_at;
        consumed_at = row.consumed_at;
      }))))

unfoldable pub to_row : RefreshToken → Row
to_row token = record {
  value = token.value;
  family_id = token.family_id;
  client_id = token.client_id;
  user_sub = token.user_sub;
  scope = to_str token.scope;
  issued_at = token.issued_at;
  expires_at = token.expires_at;
  consumed_at = token.consumed_at;
}

-- the row as its parameters are bound
unfoldable pub bind_row : Bind → Row → Outcome Exception Row
bind_row bind row = and_then (bind row.issued_at) (λ issued_at.
    and_then (bind row.expires_at) (λ expires_at.
      and_then (bind_nullable bind row.consumed_at) (λ consumed_at. ok (record row {
        issued_at = issued_at;
        expires_at = expires_at;
        consumed_at = consumed_at;
      }))))

pub bind_row-drops : (bind : Bind) (row : Row) → IsZoneDropping bind → bind_row bind row ≡ ok row
unfolding bind_row
bind_row-drops bind row d =
    ground (arith, d row.issued_at, d row.expires_at, bind_nullable-drops bind row.consumed_at d)

abbrev pub Table : Type 0
Table = List Row

abbrev pub has_value : String → Row → Bool
has_value value row = row.value == value

unfoldable pub save : Bind → RefreshToken → Flow Table Exception Unit
save bind token =
    transaction
      (do row ← lift (bind_row bind (to_row token)); insert_row (has_value token.value) row)

-- `None if row is None else _to_domain(row)`
abbrev pub read_row : Option Row → Outcome Exception (Option (AsRead RefreshToken))
read_row none = ok none
read_row (some row) = and_then (to_domain row) (λ token. ok (some token))

unfoldable pub find_by_value : String → Flow Table Exception (Option (AsRead RefreshToken))
find_by_value value = do row ← gets (select_where (has_value value)); lift (read_row row)

-- the condition of the update in `rotate`
unfoldable pub is_rotatable : String → ℕ → Row → Bool
is_rotatable value now row =
    row.value == value && (not (is_some row.consumed_at) && ltb now row.expires_at)

-- the condition of the update in `revoke_family`
unfoldable pub is_live_row : String → Row → Bool
is_live_row family_id row = row.family_id == family_id && not (is_some row.consumed_at)

unfoldable pub set_consumed : ℕ → Row → Row
set_consumed now row = record row { consumed_at = some now }

-- `if result.rowcount == 0`: why no row was updated
unfoldable pub refuse : String → Flow Table Exception RefreshToken
refuse old_value = do
  found ← gets (select_where (has_value old_value))
  old ← or_raise found (failure invalid_grant "refresh token not found")
  if is_some old.consumed_at
      then raise (failure invalid_grant "refresh token has already been used")
      else raise (failure invalid_grant "refresh token has expired")

unfoldable pub insert_new : Bind → RefreshToken → Flow Table Exception RefreshToken
insert_new bind new_token = do
  row ← lift (bind_row bind (to_row new_token))
  insert_row (has_value new_token.value) row
  pure new_token

unfoldable pub rotate : Bind → String → RefreshToken → ℕ → Flow Table Exception RefreshToken
rotate bind old_value new_token at = transaction (do
  now ← lift (bind at)
  rowcount ← execute_update (is_rotatable old_value now) (set_consumed now)
  if nat_eq rowcount 0 then refuse old_value else insert_new bind new_token)

unfoldable pub revoke_family : Bind → String → ℕ → Flow Table Exception ℕ
revoke_family bind family_id at = do
  now ← lift (bind at)
  execute_update (is_live_row family_id) (set_consumed now)
