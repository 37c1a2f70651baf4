-- ===== src/Sql/DeviceCodes/Once.antt =====
-- A device code of the SQL repository is redeemed once.
use oauth_lab.Prelude.{ℕ, String, some, none, true, false, ◌≡◌, ap, sym, ◌∙◌, subst, arith}
use oauth_lab.Flow.{ok, is_raised, ◌>>=◌}
use oauth_lab.Dict
use oauth_lab.Dict.{get-put_self}
use oauth_lab.Domain.Errors.{and_then}
use oauth_lab.Domain.DeviceCode as DeviceCodeModel
use oauth_lab.Domain.DeviceCode.{DeviceCode}
use oauth_lab.Memory.DeviceCodes as Memory
use oauth_lab.Memory.DeviceCodes.{Store, is_redeemable}
use oauth_lab.Grant.DeviceCode.Race.{redeem-once}
use oauth_lab.Sql.{Bind, IsZoneDropping}
use oauth_lab.Sql.Tables
use oauth_lab.Sql.DeviceCodes.{to_row, to_domain, redeem}
use oauth_lab.Sql.DeviceCodes.Refines.{
  code_key, table_of, IsKept, read_back, redeem-key, redeem-refines,
}

-- the moment of the redemption is not read back into what may raise
readable-redeem :
    (c : DeviceCode) (t t' : ℕ)
    → is_raised (to_domain (to_row (DeviceCodeModel.redeem (DeviceCodeModel.redeem c t) t')))
      ≡ is_raised (to_domain (to_row (DeviceCodeModel.redeem c t)))
unfolding to_domain to_row DeviceCodeModel.redeem
readable-redeem c t t' = ground arith

some-eq :
    (d : Dict.Dict DeviceCode) (k : String) (c x : DeviceCode)
    → Dict.get d k ≡ some c
    → Dict.get d k ≡ some x
    → c ≡ x
some-eq d k c x e f = cc

-- what the in-memory `redeem` stores for a code that can be redeemed
redeem-puts :
    (s : Store) (k : String) (c : DeviceCode) (t : ℕ)
    → Dict.get s.by_device_code k ≡ some c
    → c.device_code ≡ k
    → is_redeemable c t ≡ true
    → (Memory.redeem k t s).1.by_device_code
      ≡ Dict.put s.by_device_code k (DeviceCodeModel.redeem c t)
unfolding Memory.redeem ◌>>=◌ DeviceCodeModel.redeem
redeem-puts s k c t e n h = ground arith

-- A device code that is stored under its own value, can be redeemed and can be read from its row, is
-- redeemed by the first call of `redeem` of the SQL repository, which answers with the redeemed code
-- as its row tells it, and by none that follows on it, at whatever time. The driver is taken to drop
-- the time zone of what it binds.
pub redeem-rows_once :
    (bind : Bind) (s : Store) (k : String) (c : DeviceCode) (t t' : ℕ)
    → IsZoneDropping bind
    → IsKept s.by_device_code
    → Dict.get s.by_device_code k ≡ some c
    → is_redeemable c t ≡ true
    → is_raised (to_domain (to_row (DeviceCodeModel.redeem c t))) ≡ false
    → let first = redeem bind k t (table_of s.by_device_code) in
      (first.0 ≡ and_then (to_domain (to_row (DeviceCodeModel.redeem c t))) (λ x. ok (some x)))
      × ((redeem bind k t' first.1).0 ≡ ok none)
redeem-rows_once bind s k c t t' drops kept e h readable =
    let c' : DeviceCode = DeviceCodeModel.redeem c t in
    let own : c.device_code ≡ k =
      Tables.get-IsKept to_row code_key (λ r. r.device_code) s.by_device_code k c kept e in
    let s' : Store = (Memory.redeem k t s).1 in
    let stores : s'.by_device_code ≡ Dict.put s.by_device_code k c' = redeem-puts s k c t e own h in
    let found : Dict.get s'.by_device_code k ≡ some c' =
      ap (λ d. Dict.get d k) stores ∙ get-put_self s.by_device_code k c' in
    let kept' : IsKept s'.by_device_code = subst IsKept (sym stores) (
      Tables.put-IsKept_at to_row code_key (λ r. r.device_code) s.by_device_code k c'
        (redeem-key t c ∙ own) kept) in
    let (answers, refuses) = redeem-once s k c t t' e own h in
    let first = redeem-refines bind s k t drops kept (λ x f.
      subst (λ y. is_raised (to_domain (to_row (DeviceCodeModel.redeem y t))) ≡ false)
        (some-eq s.by_device_code k c x e f) readable) in
    let again = redeem-refines bind s' k t' drops kept' (λ x f.
      subst (λ y. is_raised (to_domain (to_row (DeviceCodeModel.redeem y t'))) ≡ false)
        (some-eq s'.by_device_code k c' x found f) (readable-redeem c t t' ∙ readable)) in
    (
      ap (λ p. p.0) first ∙ ap read_back answers,
      ap (λ p. (redeem bind k t' p.1).0) first ∙ ap (λ p. p.0) again ∙ ap read_back refuses,
    )
