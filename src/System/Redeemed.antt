-- ===== src/System/Redeemed.antt =====
-- A device code that is stored as redeemed stays so, as long as requests are handled one at a time.
use oauth_lab.Prelude.{
  ℕ, String, Option, none, some, Bool, true, false, ◌≡◌, arith, eq_iff, refl, sym, Option-cases,
  Bool-cases, subst, inl, inr,
}
use oauth_lab.Flow.{◌>>=◌}
use oauth_lab.Dict
use oauth_lab.Dict.{Dict, get-put}
use oauth_lab.Domain.DeviceCode
use oauth_lab.Domain.DeviceCode.{DeviceCode, is_redeemed, mark_polled, approve, deny}
use oauth_lab.Memory.DeviceCodes
use oauth_lab.Memory.DeviceCodes.{Store, is_redeemable}

-- the entry of a code says that it was redeemed
abbrev pub is_used : Option DeviceCode → Bool
is_used none = false
is_used (some c) = is_redeemed c

-- every entry stands under its own device code
abbrev pub IsKeyed : Store → Type 0
IsKeyed s = (k : String) (c : DeviceCode) → Dict.get s.by_device_code k ≡ some c → c.device_code ≡ k

pub record Used (v : String) (s : Store) : Type 0 where
  pub keyed : IsKeyed s
  pub used : is_used (Dict.get s.by_device_code v) ≡ true

put-IsKeyed :
    (s : Store) (c : DeviceCode) (b : Dict String)
    → IsKeyed s
    → IsKeyed
        (record { by_device_code = Dict.put s.by_device_code c.device_code c; by_user_code = b })
put-IsKeyed s c b h k d e =
    ground (arith, get-put s.by_device_code c.device_code k c, eq_iff c.device_code k, h k d)

pub put-redeemed_Used :
    (v : String) (s : Store) (c : DeviceCode) (b : Dict String)
    → IsKeyed s
    → c.device_code ≡ v
    → is_redeemed c ≡ true
    → Used v
        (record { by_device_code = Dict.put s.by_device_code c.device_code c; by_user_code = b })
put-redeemed_Used v s c b h n r = record {
  keyed = put-IsKeyed s c b h;
  used = ground (arith, get-put s.by_device_code c.device_code v c, eq_iff c.device_code v);
}

pub put-Used :
    (v : String) (s : Store) (c : DeviceCode) (b : Dict String)
    → (c.device_code ≡ v → is_redeemed c ≡ true)
    → Used v s
    → Used v
        (record { by_device_code = Dict.put s.by_device_code c.device_code c; by_user_code = b })
put-Used v s c b r h = record {
  keyed = put-IsKeyed s c b h.keyed;
  used =
      ground (arith, get-put s.by_device_code c.device_code v c, eq_iff c.device_code v, r, h.used);
}

redeem-stays :
    (u : String) (t : ℕ) (s : Store)
    → Dict.get s.by_device_code u ≡ none
    → (DeviceCodes.redeem u t s).1 ≡ s
unfolding DeviceCodes.redeem ◌>>=◌
redeem-stays u t s e = ground arith

redeem-refuses :
    (u : String) (t : ℕ) (s : Store) (c : DeviceCode)
    → Dict.get s.by_device_code u ≡ some c
    → is_redeemable c t ≡ false
    → (DeviceCodes.redeem u t s).1 ≡ s
unfolding DeviceCodes.redeem ◌>>=◌
redeem-refuses u t s c e r = ground arith

redeem-writes :
    (u : String) (t : ℕ) (s : Store) (c : DeviceCode)
    → Dict.get s.by_device_code u ≡ some c
    → is_redeemable c t ≡ true
    → (DeviceCodes.redeem u t s).1 ≡ record s {
      by_device_code = Dict.put s.by_device_code c.device_code (DeviceCode.redeem c t);
    }
unfolding DeviceCodes.redeem ◌>>=◌ DeviceCode.redeem
redeem-writes u t s c e r = ground arith

pub redeem-Used :
    (v u : String) (t : ℕ) (s : Store) → Used v s → Used v (DeviceCodes.redeem u t s).1
unfolding DeviceCode.redeem is_redeemed
redeem-Used v u t s h = elim (Option-cases (Dict.get s.by_device_code u)) [
  | inl e ↦ subst (Used v) (sym (redeem-stays u t s e)) h
  | inr (c, e) ↦ elim (Bool-cases (is_redeemable c t)) [
    | inl r ↦
        subst (Used v) (sym (redeem-writes u t s c e r))
          (put-Used v s (DeviceCode.redeem c t) s.by_user_code (λ n. refl) h)
    | inr r ↦ subst (Used v) (sym (redeem-refuses u t s c e r)) h
  ]
]
