-- ===== src/Prelude/Split.antt =====
-- A text is split behind a piece without separators.
use Prim.Native.Char.{Char, code}
use Prim.Native.String.{String, ◌++◌}
use Prim.Native.Nat.{ℕ}
use mathlib.Core.Path.{◌≡◌, refl}
use mathlib.Core.Bool.{Bool, true, false, ◌&&◌}
use mathlib.Core.List.{[], ◌∷◌}
use native.Mathlib.Omega.{arith}
use text.Mathlib.TextLemmas.{nil-append, cons-append}
use oauth_lab.Prelude.Texts.{split_by, push_first}
use oauth_lab.Prelude.Patterns.{every_char, every_char-cons}

module _ (class is_sep : ℕ → Bool) (apart : (c : ℕ) → class c ≡ true → is_sep c ≡ false) where
  split-sep :
      (c : Char) (t : String)
      → is_sep (code c) ≡ true
      → split_by is_sep (String.◌∷◌ c t) ≡ "" ∷ split_by is_sep t
  unfolding split_by
  split-sep c t h = ground arith

  pub split-word :
      (w : String) (c : Char) (t : String)
      → every_char class w ≡ true
      → is_sep (code c) ≡ true
      → split_by is_sep (w ++ String.◌∷◌ c t) ≡ w ∷ split_by is_sep t
  unfolding split_by every_char push_first
  split-word String.[] c t h s = ground (arith, nil-append (String.◌∷◌ c t), split-sep c t s)
  split-word (String.◌∷◌ d w) c t h s =
      ground (arith, cons-append d w (String.◌∷◌ c t), split-word w c t, apart (code d))

  pub split-last : (w : String) → every_char class w ≡ true → split_by is_sep w ≡ w ∷ []
  unfolding split_by every_char push_first
  split-last String.[] h = refl
  split-last (String.◌∷◌ c w) h = ground (arith, split-last w, apart (code c))

-- the characters of a text that is put together
pub every_char-append :
    (class : ℕ → Bool) (s t : String)
    → every_char class (s ++ t) ≡ (every_char class s && every_char class t)
unfolding every_char
every_char-append class String.[] t = ground (arith, nil-append t)
every_char-append class (String.◌∷◌ c s) t =
    ground (arith, cons-append c s t, every_char-append class s t, every_char-cons class c (s ++ t))
