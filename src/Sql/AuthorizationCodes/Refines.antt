-- ===== src/Sql/AuthorizationCodes/Refines.antt =====
-- The conditional update of the SQL repository consumes a code as the in-memory one does.
use oauth_lab.Domain.Errors.{and_then}
use oauth_lab.Prelude.{
  ℕ, String, none, some, Bool, not, ◌&&◌, ltb, is_some, ◌≡◌, refl, arith, eq_iff, Option-cases,
  Bool-cases, inl, inr,
}
use oauth_lab.Flow.{ok, ◌>>=◌}
use oauth_lab.Dict
use oauth_lab.Dict.{get-put}
use oauth_lab.Domain.AuthorizationCode
use oauth_lab.Domain.AuthorizationCode.{AuthorizationCode, is_consumed, is_expired}
use oauth_lab.Memory.AuthorizationCodes as Memory
use oauth_lab.Memory.AuthorizationCodes.{Store}
use oauth_lab.Sql.{Bind, IsZoneDropping, execute_update, insert_row, transaction}
use oauth_lab.Sql.Tables
use oauth_lab.Sql.AuthorizationCodes.{
  Row, Table, to_row, to_domain, set_consumed, refuse, reread, is_consumable, consume, save,
  bind_row-drops,
}

abbrev pub code_key : AuthorizationCode → String
code_key c = c.value

abbrev pub table_of : Store → Table
table_of = Tables.rows to_row code_key (λ r. r.value)

-- every code stands under its own value, and no value stands twice
abbrev pub IsKept : Store → Type 0
IsKept = Tables.IsKept to_row code_key (λ r. r.value)

abbrev consumed : ℕ → AuthorizationCode → AuthorizationCode
consumed now c = record c { consumed_at = some now }

row-value : (c : AuthorizationCode) → (to_row c).value ≡ c.value
unfolding to_row
row-value c = refl

row-consumed : (c : AuthorizationCode) → is_some (to_row c).consumed_at ≡ is_consumed c
unfolding to_row is_consumed
row-consumed c = refl

consume-row :
    (now : ℕ) (c : AuthorizationCode) → set_consumed now (to_row c) ≡ to_row (consumed now c)
unfolding set_consumed to_row
consume-row now c = refl

-- the part of the condition of `consume` after the value
abbrev can_consume : ℕ → Row → Bool
can_consume now r = not (is_some r.consumed_at) && ltb now r.expires_at

can_consume-row :
    (now : ℕ) (c : AuthorizationCode)
    → can_consume now (to_row c) ≡ (not (is_consumed c) && not (is_expired c now))
unfolding to_row is_consumed is_expired
can_consume-row now c = ground arith

-- Where the driver drops the time zone of what it binds, and on the rows of codes that stand under
-- their own values, `consume` raises what the in-memory `consume` raises, answers with the code that
-- this answers with, read back from its row, which makes its datetimes naive, and leaves the rows of
-- the codes that this leaves, on each branch.
pub consume-refines :
    (bind : Bind) (s : Store) (value : String) (now : ℕ)
    → IsZoneDropping bind
    → IsKept s
    → consume bind value now (table_of s) ≡ (
      and_then (Memory.consume value now s).0 (λ c. to_domain (to_row c)),
      table_of (Memory.consume value now s).1,
    )
unfolding consume Memory.consume AuthorizationCode.consume execute_update refuse reread ◌>>=◌
    is_consumable
consume-refines bind s value now drops h = elim (Option-cases (Dict.get s value)) [
  | inl e ↦ ground (
    arith,
    drops now,
    Tables.update-absent to_row code_key (λ r. r.value) row-value (can_consume now)
        (set_consumed now) s value h e,
    Tables.select-rows to_row code_key (λ r. r.value) row-value s value h,
  )
  | inr (c, e) ↦ elim (Bool-cases (can_consume now (to_row c))) [
    | inl p ↦
        let s' : Store = Dict.put s value (consumed now c) in
        let kept : IsKept s' =
          Tables.put-IsKept_at to_row code_key (λ r. r.value) s value (consumed now c)
            (Tables.get-IsKept to_row code_key (λ r. r.value) s value c h e) h in
        ground (
          arith,
          drops now,
          Tables.update-passed to_row code_key (λ r. r.value) row-value (can_consume now)
              (set_consumed now) (consumed now) s value c (consume-row now c) h e p,
          Tables.select-rows to_row code_key (λ r. r.value) row-value s' value kept,
          get-put s value value (consumed now c),
          eq_iff value value,
          can_consume-row now c,
        )
    | inr p ↦ ground (
      arith,
      drops now,
      Tables.update-refused to_row code_key (λ r. r.value) row-value (can_consume now)
          (set_consumed now) s value c h e p,
      Tables.select-rows to_row code_key (λ r. r.value) row-value s value h,
      can_consume-row now c,
      row-consumed c,
    )
  ]
]

-- A code under a new value is saved as the in-memory `save` saves it.
pub save-refines :
    (bind : Bind) (s : Store) (c : AuthorizationCode)
    → IsZoneDropping bind
    → IsKept s
    → Dict.get s c.value ≡ none
    → save bind c (table_of s) ≡ (ok tt, table_of (Memory.save c s).1)
unfolding save Memory.save transaction insert_row ◌>>=◌
save-refines bind s c drops h a = ground (
  arith,
  bind_row-drops bind (to_row c) drops,
  Tables.exists-rows to_row code_key (λ r. r.value) row-value s c.value h,
  Tables.rows-put_new to_row code_key (λ r. r.value) s c.value c a,
)
