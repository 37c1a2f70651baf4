-- ===== src/Flow/Keeps.antt =====
-- What a method keeps of its store, whether it returns or raises: a rule for each combinator.
use oauth_lab.Prelude.{Bool, true, false, Option, none, some, if◌then◌else◌}
use oauth_lab.Flow.{
  Outcome, ok, raised, Flow, resume, pure, raise, lift, gets, or_raise, guard, ◌>>=◌,
}

pub record Keeps {S E A : Type 0} (P : S → Type 0) (m : Flow S E A) : Type 0 where
  pub from : (s : S) → P s → P (m s).1

module _ {S E A : Type 0} {P : S → Type 0} where
  pub pure-Keeps : (a : A) → Keeps {E = E} P (pure a)
  unfolding pure
  pure-Keeps a = record { from = λ s h. h }

  pub raise-Keeps : (e : E) → Keeps {A = A} P (raise e)
  unfolding raise
  raise-Keeps e = record { from = λ s h. h }

  pub lift-Keeps : (o : Outcome E A) → Keeps P (lift o)
  unfolding lift
  lift-Keeps o = record { from = λ s h. h }

  pub gets-Keeps : (f : S → A) → Keeps {E = E} P (gets f)
  unfolding gets
  gets-Keeps f = record { from = λ s h. h }

  pub or_raise-Keeps : (o : Option A) (e : E) → Keeps P (or_raise o e)
  unfolding or_raise
  or_raise-Keeps none e = record { from = λ s h. h }
  or_raise-Keeps (some a) e = record { from = λ s h. h }

  pub if-Keeps :
      (b : Bool) (m n : Flow S E A) → Keeps P m → Keeps P n → Keeps P (if b then m else n)
  if-Keeps true m n km kn = km
  if-Keeps false m n km kn = kn

module _ {S E : Type 0} {P : S → Type 0} where
  pub guard-Keeps : (passes : Bool) (e : E) → Keeps P (guard passes e)
  unfolding guard
  guard-Keeps true e = record { from = λ s h. h }
  guard-Keeps false e = record { from = λ s h. h }

module _ {S E A B : Type 0} {P : S → Type 0} where
  resume-Keeps :
      (f : A → Flow S E B) (o : Outcome E A) → ((a : A) → Keeps P (f a)) → Keeps P (resume f o)
  resume-Keeps f (ok a) k = k a
  resume-Keeps f (raised e) k = record { from = λ s h. h }

  pub bind-Keeps :
      (m : Flow S E A) (f : A → Flow S E B)
      → Keeps P m
      → ((a : A) → Keeps P (f a))
      → Keeps P (m >>= f)
  unfolding ◌>>=◌
  bind-Keeps m f km kf = record {
    from = λ s h. (resume-Keeps f (m s).0 kf).from (m s).1 (km.from s h);
  }

-- Started where the first holds, the method ends where the second does.
pub record Leads {S E A : Type 0} (P Q : S → Type 0) (m : Flow S E A) : Type 0 where
  pub from : (s : S) → P s → Q (m s).1

module _ {S E A B : Type 0} {P Q : S → Type 0} where
  resume-Leads :
      (f : A → Flow S E B) (o : Outcome E A) (s : S)
      → ((s : S) → P s → Q s)
      → ((a : A) → Leads P Q (f a))
      → P s
      → Q (resume f o s).1
  resume-Leads f (ok a) s w k h = (k a).from s h
  resume-Leads f (raised e) s w k h = w s h

  pub bind-Leads :
      (m : Flow S E A) (f : A → Flow S E B)
      → ((s : S) → P s → Q s)
      → Keeps P m
      → ((a : A) → Leads P Q (f a))
      → Leads P Q (m >>= f)
  unfolding ◌>>=◌
  bind-Leads m f w km kf = record {
    from = λ s h. resume-Leads f (m s).0 (m s).1 w kf (km.from s h);
  }

  -- what follows keeps the second already
  pub lead-Leads :
      (m : Flow S E A) (f : A → Flow S E B)
      → Leads P Q m
      → ((a : A) → Keeps Q (f a))
      → Leads P Q (m >>= f)
  unfolding ◌>>=◌
  lead-Leads m f km kf = record {
    from = λ s h. (resume-Keeps f (m s).0 kf).from (m s).1 (km.from s h);
  }

module _ {S E A : Type 0} {P Q : S → Type 0} where
  pub if-Leads :
      (b : Bool) (m n : Flow S E A) → Leads P Q m → Leads P Q n → Leads P Q (if b then m else n)
  if-Leads true m n km kn = km
  if-Leads false m n km kn = kn

  -- a method that keeps the second, where the first implies it
  pub Keeps-Leads : (m : Flow S E A) → ((s : S) → P s → Q s) → Keeps Q m → Leads P Q m
  Keeps-Leads m w k = record { from = λ s h. k.from s (w s h) }

pub ruleset keeps_rules = (
  pure-Keeps, raise-Keeps, lift-Keeps, gets-Keeps, or_raise-Keeps, if-Keeps, guard-Keeps,
  bind-Keeps,
)
