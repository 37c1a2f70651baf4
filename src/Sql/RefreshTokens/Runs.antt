-- ===== src/Sql/RefreshTokens/Runs.antt =====
-- The SQL repository of the refresh tokens does what the in-memory one does, call after call.
use oauth_lab.Prelude.{List, [], ◌∷◌, ◌≡◌, refl, arith, map}
use oauth_lab.Flow.{◌>>=◌}
use oauth_lab.Memory.RefreshTokens as Memory
use oauth_lab.Memory.RefreshTokens.{Store}
use oauth_lab.Sql.{Bind, IsZoneDropping}
use oauth_lab.Sql.Tables
use oauth_lab.Sql.RefreshTokens.{to_row}
use oauth_lab.Sql.RefreshTokens.Revoked.{IsKept, table_of, token_key, revoke_items-rows}
use oauth_lab.Sql.RefreshTokens.Calls.{
  Call, saves, finds, rotates, revokes, in_memory, in_sql, run, IsFresh, AreFresh, stored,
}
use oauth_lab.Sql.RefreshTokens.Refines.{
  save-refines, find-refines, rotate-refines, revoke_family-refines, rotate-IsKept,
}

step-refines :
    (bind : Bind) (c : Call) (s : Store)
    → IsZoneDropping bind
    → IsKept s
    → IsFresh c s
    → (in_sql bind c (table_of s) ≡ (stored (in_memory c s).0, table_of (in_memory c s).1))
      × IsKept (in_memory c s).1
unfolding in_sql in_memory IsFresh ◌>>=◌ Memory.save Memory.find_by_value Memory.revoke_family
step-refines bind (saves t) s drops h f = (
  ground (arith, save-refines bind s t drops h f),
  Tables.put-IsKept to_row token_key (λ r. r.value) s t h,
)
step-refines bind (finds k) s drops h f = (ground (arith, find-refines s k h), h)
step-refines bind (rotates old t now) s drops h f =
    (ground (arith, rotate-refines bind s old t now drops h f), rotate-IsKept s old t now h)
step-refines bind (revokes family now) s drops h f = (
  ground (arith, revoke_family-refines bind s family now drops h),
  (revoke_items-rows family now s h).1.1,
)

-- Where the driver drops the time zone of what it binds, calls of the SQL repository, of which each
-- writes a token under a value that is new, answer what the same calls of the in-memory repository
-- answer, a token that is found being read back from its row, which makes its datetimes naive, and
-- leave the rows of the tokens that those leave.
pub run-refines :
    (bind : Bind) (cs : List Call) (s : Store)
    → IsZoneDropping bind
    → IsKept s
    → AreFresh cs s
    → run (in_sql bind) cs (table_of s)
      ≡ (map stored (run in_memory cs s).0, table_of (run in_memory cs s).1)
unfolding run
run-refines bind [] s drops h f = refl
run-refines bind (c ∷ cs) s drops h f =
    let first = step-refines bind c s drops h f.0 in
    ground (arith, first.0, run-refines bind cs (in_memory c s).1 drops first.1 f.1)
