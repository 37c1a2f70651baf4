-- ===== src/Flow.antt =====
-- Methods that change a store and may raise. What was written before a raise stays written, so the
-- store comes back beside the exception too. To unfold `◌>>=◌` is to unfold the other combinators.
pub mod Inversion
pub mod Keeps
use oauth_lab.Prelude.{Bool, true, false, Option, none, some}

pub data Outcome {ℓ κ} (E : Type ℓ) (A : Type κ) : Type (ℓ ⊔ κ) where
  ok : A → Outcome E A
  raised : E → Outcome E A

-- the method did not return
abbrev pub is_raised {ℓ κ} : {E : Type ℓ} {A : Type κ} → Outcome E A → Bool
is_raised (ok a) = false
is_raised (raised e) = true

-- A method over a store `S` that raises exceptions of type `E`.
abbrev pub Flow : Type 0 → Type 0 → Type 0 → Type 0
Flow S E A = S → Outcome E A × S

module _ {S E A : Type 0} where
  unfoldable pub pure : A → Flow S E A
  pure a s = (ok a, s)

  unfoldable pub raise : E → Flow S E A
  raise e s = (raised e, s)

  unfoldable pub lift : Outcome E A → Flow S E A
  lift o s = (o, s)

  unfoldable pub gets : (S → A) → Flow S E A
  gets f s = (ok (f s), s)

  -- `if o is None: raise e`
  unfoldable pub or_raise : Option A → E → Flow S E A
  or_raise none e s = (raised e, s)
  or_raise (some a) e s = (ok a, s)

module _ {S E : Type 0} where
  unfoldable pub modify : (S → S) → Flow S E (Unit {0})
  modify f s = (ok tt, f s)

  -- `if not passes: raise e`
  unfoldable pub guard : Bool → E → Flow S E (Unit {0})
  guard true e s = (ok tt, s)
  guard false e s = (raised e, s)

module _ {S E A B : Type 0} where
  abbrev pub resume : (A → Flow S E B) → Outcome E A → Flow S E B
  resume f (ok a) s = f a s
  resume f (raised e) s = (raised e, s)

  infixl 5 ◌>>=◌ ◌>>◌
  unfoldable pub ◌>>=◌ : Flow S E A → (A → Flow S E B) → Flow S E B
  unfolding pure raise lift gets or_raise modify guard
  ◌>>=◌ m f s = resume f (m s).0 (m s).1

  abbrev pub ◌>>◌ : Flow S E A → Flow S E B → Flow S E B
  m >> k = m >>= λ _. k

-- Runs a method of one store inside a larger one.
unfoldable pub zoom : {S T E A : Type 0} → (T → S) → (S → T → T) → Flow S E A → Flow T E A
zoom get set m t = ((m (get t)).0, set (m (get t)).1 t)
