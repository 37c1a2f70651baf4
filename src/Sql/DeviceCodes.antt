-- ===== src/Sql/DeviceCodes.antt =====
-- sqlalchemy/device_code_repository.py, with `DeviceCodeRow` of orm/models.py
pub mod Refines
pub mod Once
use oauth_lab.Prelude.{
  ℕ, String, Option, none, some, List, Bool, not, ◌&&◌, ◌||◌, ◌==◌, ltb, nat_eq, is_some,
  if◌then◌else◌, ◌≡◌, arith,
}
use oauth_lab.Flow.{Outcome, ok, Flow, raise, gets, lift, modify, pure, ◌>>=◌, ◌>>◌}
use oauth_lab.Domain.Errors.{and_then, Exception, integrity_error}
use oauth_lab.Domain.Scope.{ScopeSet, to_str}
use oauth_lab.Domain.Client.{client_id}
use oauth_lab.Domain.DeviceCode.{DeviceCode}
use oauth_lab.Sql.{
  AsRead, naive, Bind, IsZoneDropping, bind_nullable, bind_nullable-drops, read_scopes,
  exists_where, select_where, update_where, execute_update, insert_row, transaction,
}

pub record Row : Type 0 where
  pub device_code : String
  pub user_code : String
  pub client_id : String
  pub scope : String
  pub issued_at : ℕ
  pub expires_at : ℕ
  pub interval_seconds : ℕ
  pub last_polled_at : Option ℕ
  pub user_sub : Option String
  pub denied : Bool
  pub redeemed_at : Option ℕ

unfoldable pub to_domain : Row → Outcome Exception (AsRead DeviceCode)
to_domain row = and_then (client_id row.client_id) (λ id. and_then (read_scopes row.scope) (λ scope.
    ok (
      naive (record {
        device_code = row.device_code;
        user_code = row.user_code;
        client_id = id;
        scope = scope;
        issued_at = row.issued_at;
        expires_at = row.expires_at;
        interval = row.interval_seconds;
        last_polled_at = row.last_polled_at;
        user_sub = row.user_sub;
        denied = row.denied;
        redeemed_at = row.redeemed_at;
      }))))

unfoldable pub to_row : DeviceCode → Row
to_row code = record {
  device_code = code.device_code;
  user_code = code.user_code;
  client_id = code.client_id;
  scope = to_str code.scope;
  issued_at = code.issued_at;
  expires_at = code.expires_at;
  interval_seconds = code.interval;
  last_polled_at = code.last_polled_at;
  user_sub = code.user_sub;
  denied = code.denied;
  redeemed_at = code.redeemed_at;
}

unfoldable pub update_row : DeviceCode → Row → Row
update_row code row = record row {
  user_code = code.user_code;
  client_id = code.client_id;
  scope = to_str code.scope;
  issued_at = code.issued_at;
  expires_at = code.expires_at;
  interval_seconds = code.interval;
  last_polled_at = code.last_polled_at;
  user_sub = code.user_sub;
  denied = code.denied;
  redeemed_at = code.redeemed_at;
}

-- the row as its parameters are bound
unfoldable pub bind_row : Bind → Row → Outcome Exception Row
bind_row bind row = and_then (bind row.issued_at) (λ issued_at.
    and_then (bind row.expires_at) (λ expires_at.
      and_then (bind_nullable bind row.last_polled_at) (λ last_polled_at.
        and_then (bind_nullable bind row.redeemed_at) (λ redeemed_at. ok (record row {
          issued_at = issued_at;
          expires_at = expires_at;
          last_polled_at = last_polled_at;
          redeemed_at = redeemed_at;
        })))))

pub bind_row-drops : (bind : Bind) (row : Row) → IsZoneDropping bind → bind_row bind row ≡ ok row
unfolding bind_row
bind_row-drops bind row d = ground (
  arith,
  d row.issued_at,
  d row.expires_at,
  bind_nullable-drops bind row.last_polled_at d,
  bind_nullable-drops bind row.redeemed_at d,
)

abbrev pub Table : Type 0
Table = List Row

abbrev pub has_device_code : String → Row → Bool
has_device_code device_code row = row.device_code == device_code

abbrev pub has_user_code : String → Row → Bool
has_user_code user_code row = row.user_code == user_code

-- another row holds the user code, which is unique
abbrev pub user_code_taken : DeviceCode → Row → Bool
user_code_taken code row =
    row.user_code == code.user_code && not (row.device_code == code.device_code)

-- an insert that breaks the primary key or the unique index
abbrev pub clashes : DeviceCode → Row → Bool
clashes code row = row.device_code == code.device_code || row.user_code == code.user_code

abbrev pub save_found : Bind → DeviceCode → Option Row → Flow Table Exception Unit
save_found bind code none = do
  row ← lift (bind_row bind (to_row code))
  insert_row (clashes code) row
save_found bind code (some row) = do
  bound ← lift (bind_row bind (update_row code row))
  taken ← gets (exists_where (user_code_taken code))
  if taken
      then raise integrity_error
      else modify (update_where (has_device_code code.device_code) (λ _. bound))

unfoldable pub save : Bind → DeviceCode → Flow Table Exception Unit
save bind code = transaction (do
  existing ← gets (select_where (has_device_code code.device_code))
  save_found bind code existing)

-- `None if row is None else _to_domain(row)`
abbrev pub read_row : Option Row → Outcome Exception (Option (AsRead DeviceCode))
read_row none = ok none
read_row (some row) = and_then (to_domain row) (λ code. ok (some code))

unfoldable pub find_by_device_code : String → Flow Table Exception (Option (AsRead DeviceCode))
find_by_device_code device_code = do
  row ← gets (select_where (has_device_code device_code))
  lift (read_row row)

unfoldable pub find_by_user_code : String → Flow Table Exception (Option (AsRead DeviceCode))
find_by_user_code user_code = do
  row ← gets (select_where (has_user_code user_code))
  lift (read_row row)

-- the condition of the update in `redeem`
unfoldable pub is_redeemable_row : String → ℕ → Row → Bool
is_redeemable_row device_code now row =
    row.device_code == device_code
    && (is_some row.user_sub
        && (not row.denied && (not (is_some row.redeemed_at) && ltb now row.expires_at)))

unfoldable pub set_redeemed : ℕ → Row → Row
set_redeemed now row = record row { redeemed_at = some now }

-- A return without a commit undoes the update, which the rows before it stand for.
abbrev pub read_redeemed : Table → Option Row → Flow Table Exception (Option (AsRead DeviceCode))
read_redeemed before none = do modify (λ _. before); pure none
read_redeemed before (some row) = do redeemed ← lift (to_domain row); pure (some redeemed)

-- the row is read again
unfoldable pub reread : Table → String → Flow Table Exception (Option (AsRead DeviceCode))
reread before device_code = do
  found ← gets (select_where (has_device_code device_code))
  read_redeemed before found

unfoldable pub redeem : Bind → String → ℕ → Flow Table Exception (Option (AsRead DeviceCode))
redeem bind device_code at = transaction (do
  now ← lift (bind at)
  before ← gets (λ rows. rows)
  rowcount ← execute_update (is_redeemable_row device_code now) (set_redeemed now)
  if nat_eq rowcount 0 then pure none else reread before device_code)
