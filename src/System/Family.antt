-- ===== src/System/Family.antt =====
-- A family of refresh tokens has at most one live token: the writes of the repository.
use oauth_lab.Prelude.{
  ℕ, ◌<◌, ◌≤◌, ◌+◌, String, some, ◌||◌, true, false, ◌==◌, ◌≡◌, ◌≢◌, arith, eq_iff, sym, ◌∙◌, subst,
  Bool-cases, inl, inr,
}
use oauth_lab.Flow.{◌>>=◌}
use oauth_lab.Dict
use oauth_lab.Dict.{get-put}
use oauth_lab.Dict.Unique.{IsUnique, put-IsUnique}
use oauth_lab.Domain.RefreshToken
use oauth_lab.Domain.RefreshToken.{RefreshToken, is_consumed, is_expired}
use oauth_lab.Memory.RefreshTokens
use oauth_lab.Memory.RefreshTokens.{Store, is_live_in}
use oauth_lab.World.Env.{Env}

-- two live tokens of one family are the same entry
abbrev pub IsAlone : Store → Type 0
IsAlone s =
    (j k : String) (a b : RefreshToken)
    → Dict.get s j ≡ some a
    → Dict.get s k ≡ some b
    → is_consumed a ≡ false
    → is_consumed b ≡ false
    → a.family_id ≡ b.family_id
    → j ≡ k

-- every token stands under its own value
abbrev pub IsKeyed : Store → Type 0
IsKeyed s = (k : String) (a : RefreshToken) → Dict.get s k ≡ some a → a.value ≡ k

-- the draws of the random source that name a family are all different
abbrev pub NeverRepeats : Env → Type 0
NeverRepeats env = (m n : ℕ) → m < n → env.token_at m 16 ≢ env.token_at n 16

-- the name of the family was drawn before the n-th draw
abbrev pub DrawnBefore : Env → ℕ → String → Type 0
DrawnBefore env n family = (m : ℕ) × (m < n) × (family ≡ env.token_at m 16)

abbrev pub IsDrawn : Env → ℕ → Store → Type 0
IsDrawn env n s =
    (k : String) (a : RefreshToken) → Dict.get s k ≡ some a → DrawnBefore env n a.family_id

pub record Families (env : Env) (n : ℕ) (s : Store) : Type 0 where
  pub alone : IsAlone s
  pub keyed : IsKeyed s
  pub drawn : IsDrawn env n s
  pub unique : IsUnique s

put-IsAlone :
    (s : Store) (t : RefreshToken)
    → IsAlone s
    → ((k : String) (b : RefreshToken)
        → Dict.get s k ≡ some b
        → is_consumed b ≡ false
        → is_consumed t ≡ false
        → b.family_id ≡ t.family_id
        → k ≡ t.value)
    → IsAlone (Dict.put s t.value t)
put-IsAlone s t h other j k a b ej ek la lb f = ground (
  arith,
  get-put s t.value j t,
  get-put s t.value k t,
  eq_iff t.value j,
  eq_iff t.value k,
  h j k a b,
  other j a,
  other k b,
)

put-IsKeyed : (s : Store) (t : RefreshToken) → IsKeyed s → IsKeyed (Dict.put s t.value t)
put-IsKeyed s t h k a e = ground (arith, get-put s t.value k t, eq_iff t.value k, h k a)

put-IsDrawn :
    (env : Env) (n : ℕ) (s : Store) (t : RefreshToken)
    → IsDrawn env n s
    → DrawnBefore env n t.family_id
    → IsDrawn env n (Dict.put s t.value t)
put-IsDrawn env n s t h d k a e = elim (Bool-cases (t.value == k)) [
  | inl same ↦
      (let eq : t.family_id ≡ a.family_id = ground (arith, get-put s t.value k t) in
        subst (DrawnBefore env n) eq d)
  | inr other ↦ h k a (ground (arith, get-put s t.value k t))
]

widen : (env : Env) (m n : ℕ) (f : String) → m ≤ n → DrawnBefore env m f → DrawnBefore env n f
widen env m n f h (i, l, e) = (i, ground arith, e)

-- later draws change nothing
pub Families-later : (env : Env) (m n : ℕ) (s : Store) → m ≤ n → Families env m s → Families env n s
Families-later env m n s h x = record {
  alone = x.alone;
  keyed = x.keyed;
  drawn = λ k a e. widen env m n a.family_id h (x.drawn k a e);
  unique = x.unique;
}

-- a token of a new family, or one that is consumed, or one that no live token stands beside
pub put-Families :
    (env : Env) (n : ℕ) (s : Store) (t : RefreshToken)
    → Families env n s
    → DrawnBefore env n t.family_id
    → ((k : String) (b : RefreshToken)
        → Dict.get s k ≡ some b
        → is_consumed b ≡ false
        → is_consumed t ≡ false
        → b.family_id ≡ t.family_id
        → k ≡ t.value)
    → Families env n (Dict.put s t.value t)
put-Families env n s t x d other = record {
  alone = put-IsAlone s t x.alone other;
  keyed = put-IsKeyed s t x.keyed;
  drawn = put-IsDrawn env n s t x.drawn d;
  unique = put-IsUnique s t.value t x.unique;
}

-- The rotation of a live token by one of its family.
rotated-Families :
    (env : Env) (n : ℕ) (s : Store) (old new : RefreshToken) (now : ℕ)
    → Families env n s
    → Dict.get s old.value ≡ some old
    → is_consumed old ≡ false
    → new.family_id ≡ old.family_id
    → Families env n (Dict.put (Dict.put s old.value (RefreshToken.consume old now)) new.value new)
unfolding RefreshToken.consume is_consumed
rotated-Families env n s old new now x e l f =
    let consumed : RefreshToken = record old { consumed_at = some now } in
    let middle : Families env n (Dict.put s old.value consumed) =
      put-Families env n s consumed x (x.drawn old.value old e) (λ k b eb lb lc fb. cc) in
    put-Families env n (Dict.put s old.value consumed) new middle
      (subst (DrawnBefore env n) (sym f) (x.drawn old.value old e))
      (λ k b eb lb ln fb.
        ground
          (arith, get-put s old.value k consumed, eq_iff old.value k, x.alone k old.value b old))

-- a token of a family that was drawn last
pub minted-Families :
    (env : Env) (n : ℕ) (s : Store) (t : RefreshToken)
    → NeverRepeats env
    → Families env n s
    → t.family_id ≡ env.token_at n 16
    → Families env (n + 1) (Dict.put s t.value t)
minted-Families env n s t distinct x f =
    put-Families env (n + 1) s t (Families-later env n (n + 1) s (ground arith) x)
      (n, ground arith, f)
      (λ k b eb lb lt fb.
        let (m, l, g) = x.drawn k b eb in absurd (distinct m n l (sym g ∙ fb ∙ f)))

rotate-refuses :
    (s : Store) (old new : RefreshToken) (now : ℕ)
    → Dict.get s old.value ≡ some old
    → (is_consumed old || is_expired old now) ≡ true
    → (RefreshTokens.rotate old.value new now s).1 ≡ s
unfolding RefreshTokens.rotate ◌>>=◌
rotate-refuses s old new now e r = ground arith

rotate-writes :
    (s : Store) (old new : RefreshToken) (now : ℕ)
    → Dict.get s old.value ≡ some old
    → (is_consumed old || is_expired old now) ≡ false
    → (RefreshTokens.rotate old.value new now s).1
      ≡ Dict.put (Dict.put s old.value (RefreshToken.consume old now)) new.value new
unfolding RefreshTokens.rotate ◌>>=◌
rotate-writes s old new now e r = ground arith

pub rotate-Families :
    (env : Env) (n : ℕ) (s : Store) (old new : RefreshToken) (now : ℕ)
    → Families env n s
    → Dict.get s old.value ≡ some old
    → new.family_id ≡ old.family_id
    → Families env n (RefreshTokens.rotate old.value new now s).1
rotate-Families env n s old new now x e f =
    elim (Bool-cases (is_consumed old || is_expired old now)) [
      | inl r ↦ subst (Families env n) (sym (rotate-refuses s old new now e r)) x
      | inr r ↦
          subst (Families env n) (sym (rotate-writes s old new now e r))
            (rotated-Families env n s old new now x e (ground arith) f)
    ]
