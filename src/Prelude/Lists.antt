-- ===== src/Prelude/Lists.antt =====
-- Membership of texts in lists, as Python's `in`, and sorting.
pub mod Sorted
use Prim.Native.String.{String}
use mathlib.Core.Bool.{Bool, true, false, ◌&&◌, ◌||◌}
use mathlib.Core.List.{List, [], ◌∷◌}
use text.Mathlib.Text.{◌==◌}
use oauth_lab.Prelude.Tests.{if◌then◌else◌}
use oauth_lab.Prelude.Texts.{str_leb}

-- `x in xs`
unfoldable pub contains : List String → String → Bool
contains [] x = false
contains (y ∷ ys) x = y == x || contains ys x

-- every element passes
unfoldable pub all {ℓ} : {A : Type ℓ} → (A → Bool) → List A → Bool
all p [] = true
all p (x ∷ xs) = p x && all p xs

-- the elements that pass
unfoldable pub keep {ℓ} : {A : Type ℓ} → (A → Bool) → List A → List A
keep p [] = []
keep p (x ∷ xs) = let rest = keep p xs in if p x then x ∷ rest else rest

insert_sorted : String → List String → List String
insert_sorted x [] = x ∷ []
insert_sorted x (y ∷ ys) =
    let later = insert_sorted x ys in if str_leb x y then x ∷ y ∷ ys else y ∷ later

-- `sorted(xs)`
unfoldable pub sorted : List String → List String
unfolding insert_sorted str_leb
sorted [] = []
sorted (x ∷ xs) = insert_sorted x (sorted xs)
