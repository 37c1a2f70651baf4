-- ===== src/Tests/SqlTests.antt =====
-- Examples of the SQL repositories, on the codes and tokens of the server.
use oauth_lab.Domain.Errors.{and_then, type_error}
use oauth_lab.Prelude.{List, [], ◌∷◌, some, none, false, map, sorted, ◌≡◌, refl}
use oauth_lab.Prelude.Patterns.{is_token, every_char}
use oauth_lab.Flow.{ok, raised, is_raised}
use oauth_lab.Domain.DeviceCode
use oauth_lab.Sql.DeviceCodes as DeviceTable
use oauth_lab.Sql.DeviceCodes.Refines as DeviceRefines
use oauth_lab.Sql.DeviceCodes.Once.{redeem-rows_once}
use oauth_lab.Domain.Scope.{ScopeSet, to_str, join_space}
use oauth_lab.Sql.{read_scopes, naive, Bind, IsZoneDropping, exists_where}
use oauth_lab.Domain.RefreshToken.{RefreshToken}
use oauth_lab.Memory.AuthorizationCodes as Codes
use oauth_lab.Sql.AuthorizationCodes as CodeTable
use oauth_lab.Sql.AuthorizationCodes.Refines as CodeRefines
use oauth_lab.Sql.AuthorizationCodes.Refines.{consume-refines}
use oauth_lab.Sql.AuthorizationCodes.Stored.{IsStorable, find-save}
use oauth_lab.Sql.RefreshTokens.Revoked.{IsKept, table_of}
use oauth_lab.Sql.RefreshTokens.Calls.{
  Call, finds, rotates, revokes, in_memory, in_sql, run, stored, AreFresh, IsFresh,
}
use oauth_lab.Sql.RefreshTokens.Runs.{run-refines}
use oauth_lab.Sql.Texts.{IsSame}
use oauth_lab.Tests.{program, world, code, live_token, approved_code}

abbrev next_token : RefreshToken
next_token = record live_token { value = "r2" }

-- the drivers, as they are documented
abbrev sqlite : Bind
sqlite t = ok t

sqlite-IsZoneDropping : IsZoneDropping sqlite
sqlite-IsZoneDropping t = refl

abbrev asyncpg : Bind
asyncpg t = raised type_error

abbrev calls : List Call
calls =
    finds "r1"
    ∷ rotates "r1" next_token 1000
    ∷ rotates "r1" (record next_token { value = "r3" }) 1001
    ∷ revokes "f1" 1002
    ∷ []

tokens-IsKept : IsKept world.refresh_tokens
unfolding program
tokens-IsKept = (refl, (refl, (refl, (refl, tt))))

calls_fresh : AreFresh calls world.refresh_tokens
unfolding program IsFresh in_memory
calls_fresh = (tt, (refl, (refl, (tt, tt))))

run-refines_example : run (in_sql sqlite) calls (table_of world.refresh_tokens) ≡ (
  map stored (run in_memory calls world.refresh_tokens).0,
  table_of (run in_memory calls world.refresh_tokens).1,
)
run-refines_example =
    run-refines sqlite calls world.refresh_tokens sqlite-IsZoneDropping tokens-IsKept calls_fresh

codes-IsKept : CodeRefines.IsKept world.auth_codes
unfolding program
codes-IsKept = (refl, (refl, tt))

consume-refines_example :
    CodeTable.consume sqlite "c1" 1000 (CodeRefines.table_of world.auth_codes) ≡ (
      and_then
          (Codes.consume "c1" 1000 world.auth_codes).0
          (λ c. CodeTable.to_domain (CodeTable.to_row c)),
      CodeRefines.table_of (Codes.consume "c1" 1000 world.auth_codes).1,
    )
consume-refines_example =
    consume-refines sqlite world.auth_codes "c1" 1000 sqlite-IsZoneDropping codes-IsKept

code-IsStorable : IsStorable code
unfolding program is_token every_char
code-IsStorable = record { id_accepted = refl; challenge_accepted = refl; tokens = refl }

no_rows : exists_where (CodeTable.has_value "c1") [] ≡ false
unfolding exists_where
no_rows = refl

find-save_example :
    let saved = CodeTable.save sqlite code [] in
    ((t : ScopeSet) × ((saved.0 ≡ ok tt)
        × (((CodeTable.find_by_value "c1" saved.1).0
              ≡ ok (some (naive (record code { scope = t }))))
            × IsSame t.scopes code.scope.scopes)))
    × (CodeTable.save asyncpg code [] ≡ (raised type_error, []))
find-save_example =
    find-save sqlite asyncpg type_error code [] sqlite-IsZoneDropping (λ t. refl) code-IsStorable
      no_rows

device_codes-IsKept : DeviceRefines.IsKept world.device_codes.by_device_code
unfolding program
device_codes-IsKept = (refl, (refl, (refl, (refl, tt))))

redeemed_is_read :
    is_raised (DeviceTable.to_domain (DeviceTable.to_row (DeviceCode.redeem approved_code 1000)))
    ≡ false
unfolding program DeviceTable.to_domain DeviceTable.to_row read_scopes to_str join_space sorted
redeemed_is_read = refl

redeem-rows_once_example :
    let first =
      DeviceTable.redeem sqlite "d1" 1000
        (DeviceRefines.table_of world.device_codes.by_device_code) in
    (first.0
      ≡ and_then
          (DeviceTable.to_domain (DeviceTable.to_row (DeviceCode.redeem approved_code 1000)))
          (λ x. ok (some x)))
    × ((DeviceTable.redeem sqlite "d1" 1001 first.1).0 ≡ ok none)
unfolding program
redeem-rows_once_example =
    redeem-rows_once sqlite world.device_codes "d1" approved_code 1000 1001 sqlite-IsZoneDropping
      device_codes-IsKept refl refl redeemed_is_read
