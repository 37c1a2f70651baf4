-- ===== src/Domain/Scope/Laws.antt =====
-- The set operations of scope.py, by membership.
use oauth_lab.Prelude.{
  Option, none, some, false, ap, ◌∙◌, String, List, [], ◌∷◌, Bool, true, not, ◌&&◌, ◌≡◌, refl,
  arith, eq_iff, contains, all, keep,
}
use oauth_lab.Domain.Scope.{ScopeSet, intersect, difference, is_subset_of}

-- `x in s.scopes`
abbrev pub Has : ScopeSet → String → Type 0
Has s x = contains s.scopes x ≡ true

-- every scope of the first is one of the second
abbrev pub IsWithin : ScopeSet → ScopeSet → Type 0
IsWithin s t = (x : String) → Has s x → Has t x

pub IsWithin-refl : (s : ScopeSet) → IsWithin s s
IsWithin-refl s x h = h

pub IsWithin-trans : (s t u : ScopeSet) → IsWithin s t → IsWithin t u → IsWithin s u
IsWithin-trans s t u h k x p = k x (h x p)

contains-keep :
    (p : String → Bool) (xs : List String) (x : String)
    → contains (keep p xs) x ≡ (contains xs x && p x)
unfolding contains keep
contains-keep p [] x = refl
contains-keep p (y ∷ ys) x = ground (arith, contains-keep p ys x, eq_iff y x)

-- A scope is in the intersection exactly when it is in both sets.
pub contains-intersect :
    (s t : ScopeSet) (x : String)
    → contains (intersect s t).scopes x ≡ (contains s.scopes x && contains t.scopes x)
unfolding intersect
contains-intersect s t x = contains-keep (contains t.scopes) s.scopes x

pub contains-difference :
    (s t : ScopeSet) (x : String)
    → contains (difference s t).scopes x ≡ (contains s.scopes x && not (contains t.scopes x))
unfolding difference
contains-difference s t x = contains-keep (λ y. not (contains t.scopes y)) s.scopes x

all-contains :
    (p : String → Bool) (xs : List String) (x : String)
    → all p xs ≡ true
    → contains xs x ≡ true
    → p x ≡ true
unfolding all contains
all-contains p [] x h m = cc
all-contains p (y ∷ ys) x h m = ground (arith, all-contains p ys x, eq_iff y x)

pub subset-Has : (s t : ScopeSet) (x : String) → is_subset_of s t ≡ true → Has s x → Has t x
unfolding is_subset_of
subset-Has s t x h m = all-contains (contains t.scopes) s.scopes x h m

-- `is_subset_of` answers true only for a subset.
pub subset-IsWithin : (s t : ScopeSet) → is_subset_of s t ≡ true → IsWithin s t
subset-IsWithin s t h x m = subset-Has s t x h m

all-of_each :
    (p : String → Bool) (xs : List String)
    → ((x : String) → contains xs x ≡ true → p x ≡ true)
    → all p xs ≡ true
unfolding all contains
all-of_each p [] h = refl
all-of_each p (y ∷ ys) h =
    let head : p y ≡ true = h y (ground (arith, eq_iff y y)) in
    let later : all p ys ≡ true = all-of_each p ys (λ x m. h x (ground arith)) in ground arith

pub IsWithin-subset : (s t : ScopeSet) → IsWithin s t → is_subset_of s t ≡ true
unfolding is_subset_of
IsWithin-subset s t h = all-of_each (contains t.scopes) s.scopes h

pub intersect-IsWithin_left : (s t : ScopeSet) → IsWithin (intersect s t) s
intersect-IsWithin_left s t x h = ground (arith, contains-intersect s t x)

pub intersect-IsWithin_right : (s t : ScopeSet) → IsWithin (intersect s t) t
intersect-IsWithin_right s t x h = ground (arith, contains-intersect s t x)

-- the scope of an answer is there, and asks for nothing that is not held
abbrev pub is_within : Option ScopeSet → ScopeSet → Bool
is_within none held = false
is_within (some s) held = is_subset_of s held

pub IsWithin-is_within :
    (o : Option ScopeSet) (s t : ScopeSet) → o ≡ some s → IsWithin s t → is_within o t ≡ true
IsWithin-is_within o s t e h = ap (λ q. is_within q t) e ∙ IsWithin-subset s t h
