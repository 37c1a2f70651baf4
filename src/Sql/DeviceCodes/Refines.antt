-- ===== src/Sql/DeviceCodes/Refines.antt =====
-- The conditional update of the SQL repository redeems a device code as the in-memory one does.
use oauth_lab.Prelude.{
  ℕ, String, Option, some, false, Bool, not, ◌&&◌, ltb, is_some, ◌≡◌, refl, ◌∙◌, arith, eq_iff,
  Option-cases, Bool-cases, inl, inr,
}
use oauth_lab.Flow.{Outcome, ok, raised, is_raised, ◌>>=◌}
use oauth_lab.Dict
use oauth_lab.Dict.{Dict, get-put}
use oauth_lab.Domain.Errors.{Exception}
use oauth_lab.Domain.DeviceCode as DeviceCodeModel
use oauth_lab.Domain.DeviceCode.{DeviceCode, is_redeemed, is_expired, is_approved}
use oauth_lab.Memory.DeviceCodes as Memory
use oauth_lab.Memory.DeviceCodes.{Store, is_redeemable}
use oauth_lab.Memory.RefreshTokens.Laws.{map_option}
use oauth_lab.Sql.{AsRead, Bind, IsZoneDropping, execute_update, transaction}
use oauth_lab.Sql.Tables
use oauth_lab.Sql.DeviceCodes.{
  Row, Table, to_row, to_domain, read_row, set_redeemed, reread, is_redeemable_row, redeem,
}

abbrev pub code_key : DeviceCode → String
code_key c = c.device_code

abbrev pub table_of : Dict DeviceCode → Table
table_of = Tables.rows to_row code_key (λ r. r.device_code)

-- every code stands under its own device code, and none stands twice
abbrev pub IsKept : Dict DeviceCode → Type 0
IsKept = Tables.IsKept to_row code_key (λ r. r.device_code)

-- the codes as they are read back from their rows
abbrev pub read_back :
    Outcome Exception (Option DeviceCode) → Outcome Exception (Option (AsRead DeviceCode))
read_back (raised e) = raised e
read_back (ok o) = read_row (map_option to_row o)

-- the row of the stored code, if there is one, can be read, redeemed or not
abbrev pub IsReadable : Dict DeviceCode → String → ℕ → Type 0
IsReadable d k now =
    (c : DeviceCode)
    → Dict.get d k ≡ some c
    → is_raised (to_domain (to_row (DeviceCodeModel.redeem c now))) ≡ false

row-key : (c : DeviceCode) → (to_row c).device_code ≡ c.device_code
unfolding to_row
row-key c = refl

redeem-row :
    (now : ℕ) (c : DeviceCode) → set_redeemed now (to_row c) ≡ to_row (DeviceCodeModel.redeem c now)
unfolding set_redeemed to_row DeviceCodeModel.redeem
redeem-row now c = refl

-- the part of the condition of `redeem` after the device code
abbrev can_redeem : ℕ → Row → Bool
can_redeem now r =
    is_some r.user_sub && (not r.denied && (not (is_some r.redeemed_at) && ltb now r.expires_at))

can_redeem-row : (now : ℕ) (c : DeviceCode) → can_redeem now (to_row c) ≡ is_redeemable c now
unfolding to_row is_redeemable is_approved is_redeemed is_expired
can_redeem-row now c = ground arith

pub redeem-key :
    (now : ℕ) (c : DeviceCode) → (DeviceCodeModel.redeem c now).device_code ≡ c.device_code
unfolding DeviceCodeModel.redeem
redeem-key now c = refl

-- Where the driver drops the time zone of what it binds, on the rows of codes that stand under their
-- own device codes, and where the row of the code can be
-- read, `redeem` answers with what the in-memory `redeem` answers with, read back from its row, and
-- leaves the rows of the codes that this leaves, on each branch.
pub redeem-refines :
    (bind : Bind) (s : Store) (k : String) (now : ℕ)
    → IsZoneDropping bind
    → IsKept s.by_device_code
    → IsReadable s.by_device_code k now
    → redeem bind k now (table_of s.by_device_code)
      ≡ (read_back (Memory.redeem k now s).0, table_of (Memory.redeem k now s).1.by_device_code)
unfolding redeem Memory.redeem transaction execute_update reread ◌>>=◌ is_redeemable_row
redeem-refines bind s k now drops h readable = elim (Option-cases (Dict.get s.by_device_code k)) [
  | inl e ↦ ground (
    arith,
    drops now,
    Tables.update-absent to_row code_key (λ r. r.device_code) row-key (can_redeem now)
        (set_redeemed now) s.by_device_code k h e,
  )
  | inr (c, e) ↦ elim (Bool-cases (can_redeem now (to_row c))) [
    | inl p ↦
        let c' : DeviceCode = DeviceCodeModel.redeem c now in
        let d : Dict DeviceCode = Dict.put s.by_device_code k c' in
        let own = Tables.get-IsKept to_row code_key (λ r. r.device_code) s.by_device_code k c h e in
        let kept : IsKept d =
          Tables.put-IsKept_at to_row code_key (λ r. r.device_code) s.by_device_code k c'
            (redeem-key now c ∙ own) h in
        ground (
          arith,
          drops now,
          own,
          redeem-key now c,
          readable c e,
          Tables.update-passed to_row code_key (λ r. r.device_code) row-key (can_redeem now)
              (set_redeemed now) (λ x. DeviceCodeModel.redeem x now) s.by_device_code k c
              (redeem-row now c) h e p,
          Tables.select-rows to_row code_key (λ r. r.device_code) row-key d k kept,
          get-put s.by_device_code k k c',
          eq_iff k k,
          can_redeem-row now c,
        )
    | inr p ↦ ground (
      arith,
      drops now,
      Tables.update-refused to_row code_key (λ r. r.device_code) row-key (can_redeem now)
          (set_redeemed now) s.by_device_code k c h e p,
      can_redeem-row now c,
    )
  ]
]
