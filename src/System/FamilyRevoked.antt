-- ===== src/System/FamilyRevoked.antt =====
-- The revocation of a family keeps the invariant of the families.
use oauth_lab.Prelude.{
  ℕ, ◌+◌, String, List, [], ◌∷◌, if◌then◌else◌, some, Bool, true, false, ◌≡◌, arith, ap, sym, ◌∙◌,
  subst, Option-cases, inl, inr,
}
use oauth_lab.Flow.{pure}
use oauth_lab.Dict
use oauth_lab.Dict.{get-put}
use oauth_lab.Dict.Unique.{IsUnique, put-IsUnique}
use oauth_lab.Domain.RefreshToken
use oauth_lab.Domain.RefreshToken.{RefreshToken, is_consumed, is_expired}
use oauth_lab.Memory.RefreshTokens
use oauth_lab.Memory.RefreshTokens.{Store, is_live_in}
use oauth_lab.Memory.RefreshTokens.Laws.{get-revoke_family, revoked, map_option}
use oauth_lab.World.Env.{Env}
use oauth_lab.System.Family.{DrawnBefore, Families}

some-inj : {A : Type 0} {a b : A} → some a ≡ some b → a ≡ b
some-inj h = cc

origin :
    (family : String) (now : ℕ) (s : Store) (k : String) (a : RefreshToken)
    → IsUnique s
    → Dict.get (RefreshTokens.revoke_family family now s).1 k ≡ some a
    → (b : RefreshToken) × (Dict.get s k ≡ some b) × (a ≡ revoked family now b)
origin family now s k a u e = elim (Option-cases (Dict.get s k)) [
  | inl n ↦ ground (arith, get-revoke_family family now s k u)
  | inr (b, q) ↦ (
    b,
    q,
    some-inj (sym e ∙ get-revoke_family family now s k u ∙ ap (map_option (revoked family now)) q),
  )
]

revoked-fields :
    (family : String) (now : ℕ) (b : RefreshToken)
    → ((revoked family now b).value ≡ b.value) × ((revoked family now b).family_id ≡ b.family_id)
unfolding is_live_in RefreshToken.consume
revoked-fields family now b = ground arith

revoked-live :
    (family : String) (now : ℕ) (b : RefreshToken)
    → is_consumed (revoked family now b) ≡ false
    → is_consumed b ≡ false
unfolding is_live_in RefreshToken.consume is_consumed
revoked-live family now b h = ground arith

step-IsUnique :
    (live : Bool) (acc : Store × ℕ) (v : String) (t : RefreshToken)
    → IsUnique acc.0
    → IsUnique (if live then (Dict.put acc.0 v t, acc.1 + 1) else acc).0
step-IsUnique true acc v t u = put-IsUnique acc.0 v t u
step-IsUnique false acc v t u = u

revoke_items-IsUnique :
    (family : String) (now : ℕ) (items : List (String × RefreshToken)) (acc : Store × ℕ)
    → IsUnique acc.0
    → IsUnique (RefreshTokens.revoke_items family now items acc).0
unfolding RefreshTokens.revoke_items
revoke_items-IsUnique family now [] acc u = u
revoke_items-IsUnique family now ((v, t) ∷ items) acc u =
    revoke_items-IsUnique family now items _
      (step-IsUnique (is_live_in family t) acc v (RefreshToken.consume t now) u)

revoke_family-IsUnique :
    (family : String) (now : ℕ) (s : Store)
    → IsUnique s
    → IsUnique (RefreshTokens.revoke_family family now s).1
unfolding RefreshTokens.revoke_family pure
revoke_family-IsUnique family now s u = revoke_items-IsUnique family now s (s, 0) u

pub revoke_family-Families :
    (env : Env) (n : ℕ) (family : String) (now : ℕ) (s : Store)
    → Families env n s
    → Families env n (RefreshTokens.revoke_family family now s).1
revoke_family-Families env n family now s x = record {
  alone = λ j k a b ej ek la lb f.
      let (a', ea, qa) = origin family now s j a x.unique ej in
      let (b', eb, qb) = origin family now s k b x.unique ek in
      x.alone j k a' b' ea eb (revoked-live family now a' (ap is_consumed (sym qa) ∙ la))
        (revoked-live family now b' (ap is_consumed (sym qb) ∙ lb))
        (sym (revoked-fields family now a').1
          ∙ ap (λ t. t.family_id) (sym qa)
          ∙ f
          ∙ ap (λ t. t.family_id) qb
          ∙ (revoked-fields family now b').1);
  keyed = λ k a e.
      let (b, eb, q) = origin family now s k a x.unique e in
      ap (λ t. t.value) q ∙ (revoked-fields family now b).0 ∙ x.keyed k b eb;
  drawn = λ k a e.
      let (b, eb, q) = origin family now s k a x.unique e in
      subst (DrawnBefore env n) (sym (ap (λ t. t.family_id) q ∙ (revoked-fields family now b).1))
        (x.drawn k b eb);
  unique = revoke_family-IsUnique family now s x.unique;
}
