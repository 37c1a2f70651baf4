-- ===== src/Sql/RefreshTokens/Calls.antt =====
-- The calls of a repository of refresh tokens, in memory and in SQL.
use oauth_lab.Prelude.{ℕ, String, Option, none, List, [], ◌∷◌, ◌≡◌}
use oauth_lab.Flow.{Outcome, ok, raised}
use oauth_lab.Dict
use oauth_lab.Dict.{get-put}
use oauth_lab.Domain.Errors.{Exception}
use oauth_lab.Domain.RefreshToken.{RefreshToken}
use oauth_lab.Memory.RefreshTokens as Memory
use oauth_lab.Memory.RefreshTokens.{Store}
use oauth_lab.Memory.RefreshTokens.Laws.{map_option}
use oauth_lab.Sql.{AsRead, Bind}
use oauth_lab.Sql.RefreshTokens.{
  Table, to_row, read_row, save, find_by_value, rotate, revoke_family,
}

-- A call of the repository.
pub data Call : Type 0 where
  saves : RefreshToken → Call
  finds : String → Call
  rotates : String → RefreshToken → ℕ → Call
  revokes : String → ℕ → Call

-- The answer to a call, where what is found is a `T`.
pub data Reply (T : Type 0) : Type 0 where
  saved : Outcome Exception (Unit {0}) → Reply T
  found : Outcome Exception (Option T) → Reply T
  rotated : Outcome Exception RefreshToken → Reply T
  revoked : Outcome Exception ℕ → Reply T

abbrev pub reply_with : {T A S : Type 0} → (A → Reply T) → A × S → Reply T × S
reply_with f (a, s) = (f a, s)

unfoldable pub in_memory : Call → Store → Reply RefreshToken × Store
in_memory (saves t) s = reply_with saved (Memory.save t s)
in_memory (finds k) s = reply_with found (Memory.find_by_value k s)
in_memory (rotates old t now) s = reply_with rotated (Memory.rotate old t now s)
in_memory (revokes family now) s = reply_with revoked (Memory.revoke_family family now s)

unfoldable pub in_sql : Bind → Call → Table → Reply (AsRead RefreshToken) × Table
in_sql bind (saves t) s = reply_with saved (save bind t s)
in_sql bind (finds k) s = reply_with found (find_by_value k s)
in_sql bind (rotates old t now) s = reply_with rotated (rotate bind old t now s)
in_sql bind (revokes family now) s = reply_with revoked (revoke_family bind family now s)

-- the answers to calls that follow on each other, and the store after them
unfoldable pub run : {T S : Type 0} → (Call → S → Reply T × S) → List Call → S → List (Reply T) × S
run step [] s = ([], s)
run step (c ∷ cs) s =
    let (reply, s') = step c s in let (replies, s'') = run step cs s' in (reply ∷ replies, s'')

-- no token stands under the value that the call writes
unfoldable pub IsFresh : Call → Store → Type 0
IsFresh (saves t) s = Dict.get s t.value ≡ none
IsFresh (finds k) s = Unit
IsFresh (rotates old t now) s = Dict.get s t.value ≡ none
IsFresh (revokes family now) s = Unit

-- each of the calls writes under a value that is new when its turn comes
abbrev pub AreFresh : List Call → Store → Type 0
AreFresh [] s = Unit
AreFresh (c ∷ cs) s = IsFresh c s × AreFresh cs (in_memory c s).1

-- the token as it is read back from its row, its datetimes naive
abbrev pub read_back :
    Outcome Exception (Option RefreshToken) → Outcome Exception (Option (AsRead RefreshToken))
read_back (raised e) = raised e
read_back (ok o) = read_row (map_option to_row o)

-- the answer of the SQL repository for one of the in-memory repository
abbrev pub stored : Reply RefreshToken → Reply (AsRead RefreshToken)
stored (found o) = found (read_back o)
stored (saved o) = saved o
stored (rotated o) = rotated o
stored (revoked o) = revoked o
