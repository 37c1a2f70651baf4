-- ===== src/Sql/RefreshTokens/Refines.antt =====
-- The SQL repository of the refresh tokens does what the in-memory one does, on each branch of each method.
use oauth_lab.Prelude.{
  subst, ◌||◌, ℕ, String, none, some, Bool, not, ◌&&◌, ltb, is_some, ◌≡◌, refl, arith, eq_iff,
  Option-cases, Bool-cases, inl, inr,
}
use oauth_lab.Flow.{Outcome, ◌>>=◌}
use oauth_lab.Dict
use oauth_lab.Dict.{get-put}
use oauth_lab.Domain.Errors.{Exception}
use oauth_lab.Domain.RefreshToken.{RefreshToken, is_consumed, is_expired, consume}
use oauth_lab.Memory.RefreshTokens as Memory
use oauth_lab.Memory.RefreshTokens.{Store}
use oauth_lab.Memory.RefreshTokens.Laws.{map_option}
use oauth_lab.Sql.{Bind, IsZoneDropping, insert_row, execute_update, transaction}
use oauth_lab.Sql.Tables
use oauth_lab.Sql.RefreshTokens.{
  Row, Table, to_row, set_consumed, refuse, insert_new, is_rotatable, read_row, save, find_by_value,
  rotate, revoke_family, bind_row-drops,
}
use oauth_lab.Sql.RefreshTokens.Revoked.{IsKept, table_of, token_key, revoke_items-rows}

-- the answer of a method on a table, for the answer of the in-memory method
abbrev pub over_table : {A : Type 0} → Outcome Exception A × Store → Outcome Exception A × Table
over_table (o, s) = (o, table_of s)

row-value : (t : RefreshToken) → (to_row t).value ≡ t.value
unfolding to_row
row-value t = refl

-- the part of the condition of `rotate` after the value
abbrev can_rotate : ℕ → Row → Bool
can_rotate now r = not (is_some r.consumed_at) && ltb now r.expires_at

can_rotate-row :
    (now : ℕ) (t : RefreshToken)
    → can_rotate now (to_row t) ≡ (not (is_consumed t) && not (is_expired t now))
unfolding to_row is_consumed is_expired
can_rotate-row now t = ground arith

row-consumed : (t : RefreshToken) → is_some (to_row t).consumed_at ≡ is_consumed t
unfolding to_row is_consumed
row-consumed t = refl

consume-row : (now : ℕ) (t : RefreshToken) → set_consumed now (to_row t) ≡ to_row (consume t now)
unfolding set_consumed to_row consume
consume-row now t = refl

consumed-IsKept :
    (s : Store) (k : String) (t : RefreshToken) (now : ℕ)
    → IsKept s
    → Dict.get s k ≡ some t
    → IsKept (Dict.put s k (consume t now))
unfolding consume
consumed-IsKept s k t now h e =
    Tables.put-IsKept_at to_row token_key (λ r. r.value) s k (consume t now)
      (Tables.get-IsKept to_row token_key (λ r. r.value) s k t h e) h

pub save-refines :
    (bind : Bind) (s : Store) (t : RefreshToken)
    → IsZoneDropping bind
    → IsKept s
    → Dict.get s t.value ≡ none
    → save bind t (table_of s) ≡ over_table (Memory.save t s)
unfolding save Memory.save transaction insert_row ◌>>=◌
save-refines bind s t drops h a = ground (
  arith,
  bind_row-drops bind (to_row t) drops,
  Tables.exists-rows to_row token_key (λ r. r.value) row-value s t.value h,
  Tables.rows-put_new to_row token_key (λ r. r.value) s t.value t a,
)

pub find-refines :
    (s : Store) (k : String)
    → IsKept s
    → (find_by_value k (table_of s)) ≡ (read_row (map_option to_row (Dict.get s k)), table_of s)
unfolding find_by_value ◌>>=◌
find-refines s k h =
    ground (arith, Tables.select-rows to_row token_key (λ r. r.value) row-value s k h)

pub rotate-refines :
    (bind : Bind) (s : Store) (old : String) (t : RefreshToken) (now : ℕ)
    → IsZoneDropping bind
    → IsKept s
    → Dict.get s t.value ≡ none
    → rotate bind old t now (table_of s) ≡ over_table (Memory.rotate old t now s)
unfolding rotate Memory.rotate transaction insert_row execute_update refuse insert_new ◌>>=◌
    is_rotatable
rotate-refines bind s old t now drops h a = elim (Option-cases (Dict.get s old)) [
  | inl e ↦ ground (
    arith,
    drops now,
    Tables.update-absent to_row token_key (λ r. r.value) row-value (can_rotate now)
        (set_consumed now) s old h e,
    Tables.select-rows to_row token_key (λ r. r.value) row-value s old h,
  )
  | inr (u, e) ↦ elim (Bool-cases (can_rotate now (to_row u))) [
    | inl p ↦
        let s' : Store = Dict.put s old (consume u now) in
        let free : Dict.get s' t.value ≡ none =
          ground (arith, get-put s old t.value (consume u now), eq_iff old t.value) in
        let kept : IsKept s' = consumed-IsKept s old u now h e in
        ground (
          arith,
          drops now,
          bind_row-drops bind (to_row t) drops,
          Tables.update-passed to_row token_key (λ r. r.value) row-value (can_rotate now)
              (set_consumed now) (λ x. consume x now) s old u (consume-row now u) h e p,
          Tables.exists-rows to_row token_key (λ r. r.value) row-value s' t.value kept,
          Tables.rows-put_new to_row token_key (λ r. r.value) s' t.value t free,
          can_rotate-row now u,
        )
    | inr p ↦ ground (
      arith,
      drops now,
      Tables.update-refused to_row token_key (λ r. r.value) row-value (can_rotate now)
          (set_consumed now) s old u h e p,
      Tables.select-rows to_row token_key (λ r. r.value) row-value s old h,
      can_rotate-row now u,
      row-consumed u,
    )
  ]
]

pub revoke_family-refines :
    (bind : Bind) (s : Store) (family : String) (now : ℕ)
    → IsZoneDropping bind
    → IsKept s
    → revoke_family bind family now (table_of s) ≡ over_table (Memory.revoke_family family now s)
unfolding revoke_family Memory.revoke_family execute_update ◌>>=◌
revoke_family-refines bind s family now drops h =
    ground (arith, drops now, revoke_items-rows family now s h)

pub rotate-IsKept :
    (s : Store) (old : String) (t : RefreshToken) (now : ℕ)
    → IsKept s
    → IsKept (Memory.rotate old t now s).1
unfolding Memory.rotate ◌>>=◌
rotate-IsKept s old t now h = elim (Option-cases (Dict.get s old)) [
  | inl e ↦ subst IsKept (ground arith) h
  | inr (u, e) ↦ elim (Bool-cases (is_consumed u || is_expired u now)) [
    | inl p ↦ subst IsKept (ground arith) h
    | inr p ↦
        let kept =
          Tables.put-IsKept to_row token_key (λ r. r.value) (Dict.put s old (consume u now)) t
            (consumed-IsKept s old u now h e) in
        subst IsKept (ground arith) kept
  ]
]
