-- ===== src/Flow/Inversion.antt =====
-- A method that returned: what its first part did.
use oauth_lab.Prelude.{ap, ◌⊎◌, inl, inr, Option, none, some, Bool, true, false, ◌≡◌, refl}
use oauth_lab.Flow.{
  is_raised, Outcome, ok, raised, Flow, pure, resume, lift, or_raise, guard, ◌>>=◌,
}

pub is_raised-cases :
    {E A : Type 0} (o : Outcome E A) → (is_raised o ≡ true) ⊎ ((a : A) × (o ≡ ok a))
is_raised-cases (ok a) = inr (a, refl)
is_raised-cases (raised e) = inl refl

module _ {S E A B : Type 0} where
  resume-eq-ok :
      (f : A → Flow S E B) (o : Outcome E A) (s : S) {b : B} {t : S}
      → resume f o s ≡ (ok b, t)
      → (a : A) × (o ≡ ok a) × (f a s ≡ (ok b, t))
  resume-eq-ok f (ok a) s h = (a, refl, h)
  resume-eq-ok f (raised e) s h = cc

  pub bind-eq-ok :
      (m : Flow S E A) (f : A → Flow S E B) {s : S} {b : B} {t : S}
      → (m >>= f) s ≡ (ok b, t)
      → (a : A) × (s' : S) × (m s ≡ (ok a, s')) × (f a s' ≡ (ok b, t))
  unfolding ◌>>=◌
  bind-eq-ok m f {s} h =
      let (a, e, k) = resume-eq-ok f (m s).0 (m s).1 h in (a, (m s).1, λ i. (e i, (m s).1), k)

  -- the method goes on from what its first part returned
  pub bind-ok :
      (m : Flow S E A) (f : A → Flow S E B) {s s' : S} {a : A}
      → m s ≡ (ok a, s')
      → (m >>= f) s ≡ f a s'
  unfolding ◌>>=◌
  bind-ok m f h = ap (λ p. resume f p.0 p.1) h

  pub or_raise-some :
      (e : E) (a : A) (f : A → Flow S E B) {s : S} → (or_raise (some a) e >>= f) s ≡ f a s
  unfolding ◌>>=◌
  or_raise-some e a f = refl

  pub lift-eq-ok :
      (o : Outcome E A) (f : A → Flow S E B) {s : S} {b : B} {t : S}
      → (lift o >>= f) s ≡ (ok b, t)
      → (a : A) × (o ≡ ok a) × (f a s ≡ (ok b, t))
  unfolding ◌>>=◌
  lift-eq-ok o f {s} h = resume-eq-ok f o s h

  pub or_raise-eq-ok :
      (o : Option A) (e : E) (f : A → Flow S E B) {s : S} {b : B} {t : S}
      → (or_raise o e >>= f) s ≡ (ok b, t)
      → (a : A) × (o ≡ some a) × (f a s ≡ (ok b, t))
  unfolding ◌>>=◌
  or_raise-eq-ok (some a) e f h = (a, refl, h)
  or_raise-eq-ok none e f h = cc

module _ {S E B : Type 0} where
  pub guard-eq-ok :
      (passes : Bool) (e : E) (f : Unit {0} → Flow S E B) {s : S} {b : B} {t : S}
      → (guard passes e >>= f) s ≡ (ok b, t)
      → (passes ≡ true) × (f tt s ≡ (ok b, t))
  unfolding ◌>>=◌
  guard-eq-ok true e f h = (refl, h)
  guard-eq-ok false e f h = cc

module _ {S E A : Type 0} where
  pub pure-eq-ok : (a b : A) {s t : S} → pure {E = E} a s ≡ (ok b, t) → (b ≡ a) × (t ≡ s)
  unfolding pure
  pure-eq-ok a b {s} {t} h = (cc, cc)
