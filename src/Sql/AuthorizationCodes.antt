-- ===== src/Sql/AuthorizationCodes.antt =====
-- sqlalchemy/authorization_code_repository.py, with `AuthorizationCodeRow` of orm/models.py
pub mod Stored
pub mod Refines
use oauth_lab.Prelude.{
  ℕ, String, Option, none, some, List, Bool, not, ◌&&◌, ◌==◌, ltb, nat_eq, is_some, if◌then◌else◌,
  ◌≡◌, arith,
}
use oauth_lab.Flow.{Outcome, ok, Flow, raise, gets, lift, or_raise, pure, ◌>>=◌, ◌>>◌}
use oauth_lab.Domain.Errors.{and_then, Exception, failure, invalid_grant, assertion_error}
use oauth_lab.Domain.Scope.{ScopeSet, to_str}
use oauth_lab.Domain.Pkce.{pkce_challenge}
use oauth_lab.Domain.Client.{client_id}
use oauth_lab.Domain.AuthorizationCode.{AuthorizationCode}
use oauth_lab.Sql.{
  AsRead, naive, Bind, IsZoneDropping, bind_nullable, bind_nullable-drops, read_scopes,
  select_where, execute_update, insert_row, transaction,
}

pub record Row : Type 0 where
  pub value : String
  pub client_id : String
  pub user_sub : String
  pub redirect_uri : String
  pub scope : String
  pub pkce_challenge_value : String
  pub pkce_challenge_method : String
  pub issued_at : ℕ
  pub expires_at : ℕ
  pub consumed_at : Option ℕ
  pub nonce : Option String

unfoldable pub to_domain : Row → Outcome Exception (AsRead AuthorizationCode)
to_domain row = and_then (client_id row.client_id) (λ id. and_then (read_scopes row.scope) (λ scope.
    and_then (pkce_challenge row.pkce_challenge_value row.pkce_challenge_method) (λ challenge. ok (
      naive (record {
        value = row.value;
        client_id = id;
        user_sub = row.user_sub;
        redirect_uri = row.redirect_uri;
        scope = scope;
        pkce_challenge = challenge;
        issued_at = row.issued_at;
        expires_at = row.expires_at;
        consumed_at = row.consumed_at;
        nonce = row.nonce;
      })))))

unfoldable pub to_row : AuthorizationCode → Row
to_row code = record {
  value = code.value;
  client_id = code.client_id;
  user_sub = code.user_sub;
  redirect_uri = code.redirect_uri;
  scope = to_str code.scope;
  pkce_challenge_value = code.pkce_challenge.value;
  pkce_challenge_method = code.pkce_challenge.method;
  issued_at = code.issued_at;
  expires_at = code.expires_at;
  consumed_at = code.consumed_at;
  nonce = code.nonce;
}

-- the row as its parameters are bound
unfoldable pub bind_row : Bind → Row → Outcome Exception Row
bind_row bind row = and_then (bind row.issued_at) (λ issued_at.
    and_then (bind row.expires_at) (λ expires_at.
      and_then (bind_nullable bind row.consumed_at) (λ consumed_at. ok (record row {
        issued_at = issued_at;
        expires_at = expires_at;
        consumed_at = consumed_at;
      }))))

pub bind_row-drops : (bind : Bind) (row : Row) → IsZoneDropping bind → bind_row bind row ≡ ok row
unfolding bind_row
bind_row-drops bind row d =
    ground (arith, d row.issued_at, d row.expires_at, bind_nullable-drops bind row.consumed_at d)

abbrev pub Table : Type 0
Table = List Row

abbrev pub has_value : String → Row → Bool
has_value value row = row.value == value

unfoldable pub save : Bind → AuthorizationCode → Flow Table Exception Unit
save bind code =
    transaction (do row ← lift (bind_row bind (to_row code)); insert_row (has_value code.value) row)

-- `None if row is None else _to_domain(row)`
abbrev pub read_row : Option Row → Outcome Exception (Option (AsRead AuthorizationCode))
read_row none = ok none
read_row (some row) = and_then (to_domain row) (λ code. ok (some code))

unfoldable pub find_by_value : String → Flow Table Exception (Option (AsRead AuthorizationCode))
find_by_value value = do row ← gets (select_where (has_value value)); lift (read_row row)

-- the condition of the update in `consume`
unfoldable pub is_consumable : String → ℕ → Row → Bool
is_consumable value now row =
    row.value == value && (not (is_some row.consumed_at) && ltb now row.expires_at)

unfoldable pub set_consumed : ℕ → Row → Row
set_consumed now row = record row { consumed_at = some now }

-- `if result.rowcount == 0`: why no row was updated
unfoldable pub refuse : String → Flow Table Exception (AsRead AuthorizationCode)
refuse value = do
  found ← gets (select_where (has_value value))
  row ← or_raise found (failure invalid_grant "authorization code not found")
  if is_some row.consumed_at
      then raise (failure invalid_grant "authorization code has already been used")
      else raise (failure invalid_grant "authorization code has expired")

-- the row is read again
unfoldable pub reread : String → Flow Table Exception (AsRead AuthorizationCode)
reread value = do
  found ← gets (select_where (has_value value))
  row ← or_raise found assertion_error
  lift (to_domain row)

unfoldable pub consume : Bind → String → ℕ → Flow Table Exception (AsRead AuthorizationCode)
consume bind value at = do
  now ← lift (bind at)
  rowcount ← execute_update (is_consumable value now) (set_consumed now)
  if nat_eq rowcount 0 then refuse value else reread value
