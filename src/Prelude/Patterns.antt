-- ===== src/Prelude/Patterns.antt =====
-- What `re.match(r"^[class]+$", s)` accepts.
use Prim.Native.Char.{Char, code}
use oauth_lab.Prelude.Texts.{matches_plus, matches_rest, is_empty_text}
use oauth_lab.Prelude.Tests.{nat_eq, if◌then◌else◌}
use Prim.Native.Nat.{ℕ}
use Prim.Native.String.{String}
use mathlib.Core.Path.{◌≡◌, refl, sym}
use mathlib.Core.Bool.{Bool, true, false, not, ◌&&◌}
use native.Mathlib.Omega.{arith}

-- every character is of the class
unfoldable pub every_char : (ℕ → Bool) → String → Bool
every_char class String.[] = true
every_char class (String.◌∷◌ c s) = class (code c) && every_char class s

-- the text without the newline that may end it
unfoldable pub chomp : String → String
chomp String.[] = ""
chomp (String.◌∷◌ c s) =
    let rest = chomp s in if nat_eq (code c) 10 && is_empty_text s then "" else String.◌∷◌ c rest

-- a text that is not empty, of characters of the class
unfoldable pub is_token : (ℕ → Bool) → String → Bool
is_token class s = not (is_empty_text s) && every_char class s

every_char-nil : (class : ℕ → Bool) → every_char class "" ≡ true
unfolding every_char
every_char-nil class = refl

pub every_char-cons :
    (class : ℕ → Bool) (c : Char) (s : String)
    → every_char class (String.◌∷◌ c s) ≡ (class (code c) && every_char class s)
unfolding every_char
every_char-cons class c s = refl

matches_rest-chomp :
    (class : ℕ → Bool) (s : String)
    → class 10 ≡ false
    → matches_rest class s ≡ every_char class (chomp s)
unfolding matches_rest chomp
matches_rest-chomp class String.[] h = sym (every_char-nil class)
matches_rest-chomp class (String.◌∷◌ c s) h =
    ground
      (arith, matches_rest-chomp class s h, every_char-nil class, every_char-cons class c (chomp s))

pub matches_plus-chomp :
    (class : ℕ → Bool) (s : String)
    → class 10 ≡ false
    → matches_plus class s ≡ is_token class (chomp s)
unfolding matches_plus is_token chomp
matches_plus-chomp class String.[] h = refl
matches_plus-chomp class (String.◌∷◌ c s) h =
    ground
      (arith, matches_rest-chomp class s h, every_char-nil class, every_char-cons class c (chomp s))
