-- ===== src/Memory/RefreshTokens/Laws.antt =====
-- What a reader of the store finds after each method of the refresh-token repository.
use oauth_lab.Prelude.{
  ℕ, ◌+◌, String, Option, none, some, List, [], ◌∷◌, ◌≡◌, ◌∙◌, refl, arith, eq_iff, if◌then◌else◌,
}
use oauth_lab.Flow.{pure}
use oauth_lab.Dict.{get, put, get-put}
use oauth_lab.Dict.Unique.{IsUnique}
use oauth_lab.Domain.RefreshToken.{RefreshToken, consume}
use oauth_lab.Memory.RefreshTokens.{Store, is_live_in, revoke_items, revoke_family}

-- the entry that `revoke_family` leaves for an entry
abbrev pub revoked : String → ℕ → RefreshToken → RefreshToken
revoked family now t = if is_live_in family t then consume t now else t

abbrev overlay : String → ℕ → Option RefreshToken → Option RefreshToken → Option RefreshToken
overlay family now none old = old
overlay family now (some t) old = if is_live_in family t then some (consume t now) else old

get-revoke_items :
    (family : String) (now : ℕ) (items : List (String × RefreshToken)) (acc : Store × ℕ)
    (k : String)
    → IsUnique items
    → get (revoke_items family now items acc).0 k ≡ overlay family now (get items k) (get acc.0 k)
unfolding revoke_items get
get-revoke_items family now [] acc k u = refl
get-revoke_items family now ((v, t) ∷ items) acc k u =
    get-revoke_items family now items
      (if is_live_in family t then (put acc.0 v (consume t now), acc.1 + 1) else acc) k u.1
    ∙ ground (arith, get-put acc.0 v k (consume t now), eq_iff v k)

abbrev pub map_option {ℓ κ} : {A : Type ℓ} {B : Type κ} → (A → B) → Option A → Option B
map_option f none = none
map_option f (some a) = some (f a)

-- Where no key stands twice, `revoke_family` consumes every token of the family that was not
-- consumed, and changes no other entry.
pub get-revoke_family :
    (family : String) (now : ℕ) (store : Store) (k : String)
    → IsUnique store
    → get (revoke_family family now store).1 k ≡ map_option (revoked family now) (get store k)
unfolding revoke_family pure
get-revoke_family family now store k u =
    ground (arith, get-revoke_items family now store (store, 0) k)
