-- ===== src/Prelude/Lists/Sorted.antt =====
-- `sorted` keeps the elements.
use Prim.Native.String.{String}
use mathlib.Core.Path.{◌≡◌, refl}
use mathlib.Core.Bool.{Bool, ◌&&◌, ◌||◌}
use mathlib.Core.List.{List, [], ◌∷◌}
use native.Mathlib.Omega.{arith}
use text.Mathlib.Text.{◌==◌}
use oauth_lab.Prelude.Lists.{contains, all, insert_sorted, sorted}

contains-insert_sorted :
    (y : String) (ys : List String) (x : String)
    → contains (insert_sorted y ys) x ≡ (y == x || contains ys x)
unfolding contains insert_sorted
contains-insert_sorted y [] x = refl
contains-insert_sorted y (z ∷ ys) x = ground (arith, contains-insert_sorted y ys x)

pub contains-sorted : (xs : List String) (x : String) → contains (sorted xs) x ≡ contains xs x
unfolding contains sorted
contains-sorted [] x = refl
contains-sorted (y ∷ xs) x =
    ground (arith, contains-sorted xs x, contains-insert_sorted y (sorted xs) x)

all-insert_sorted :
    (p : String → Bool) (y : String) (ys : List String)
    → all p (insert_sorted y ys) ≡ (p y && all p ys)
unfolding all insert_sorted
all-insert_sorted p y [] = refl
all-insert_sorted p y (z ∷ ys) = ground (arith, all-insert_sorted p y ys)

pub all-sorted : (p : String → Bool) (xs : List String) → all p (sorted xs) ≡ all p xs
unfolding all sorted
all-sorted p [] = refl
all-sorted p (y ∷ xs) = ground (arith, all-sorted p xs, all-insert_sorted p y (sorted xs))
