-- ===== src/Prelude/Texts.antt =====
-- Python's `str`, character by character: length, order, `split` at one character, and the regular
-- expressions of the form `^[class]+$` under `re.match`.
use Prim.Native.Nat.{ℕ, suc}
use Prim.Native.Char.{Char, code}
use Prim.Native.String.{String}
use mathlib.Core.Bool.{Bool, true, false, ◌&&◌, ◌||◌}
use mathlib.Core.List.{List, [], ◌∷◌}
use oauth_lab.Prelude.Tests.{ltb, leb, nat_eq, if◌then◌else◌}

-- every character is ASCII
unfoldable pub is_ascii : String → Bool
is_ascii String.[] = true
is_ascii (String.◌∷◌ c s) = ltb (code c) 128 && is_ascii s

-- `len(s)`
unfoldable pub str_len : String → ℕ
str_len String.[] = 0
str_len (String.◌∷◌ c s) = suc (str_len s)

-- `s <= t`, by code points
unfoldable pub str_leb : String → String → Bool
str_leb String.[] t = true
str_leb (String.◌∷◌ c s) String.[] = false
str_leb (String.◌∷◌ c s) (String.◌∷◌ d t) =
    let rest = str_leb s t in
    if ltb (code c) (code d) then true else if nat_eq (code c) (code d) then rest else false

-- the texts that are not empty
unfoldable pub nonempty : List String → List String
nonempty [] = []
nonempty (String.[] ∷ ws) = nonempty ws
nonempty (String.◌∷◌ c w ∷ ws) = String.◌∷◌ c w ∷ nonempty ws

-- puts a character in front of the first piece
unfoldable pub push_first : Char → List String → List String
push_first c [] = String.◌∷◌ c "" ∷ []
push_first c (w ∷ ws) = String.◌∷◌ c w ∷ ws

-- the pieces between the separators, empty ones included
unfoldable pub split_by : (ℕ → Bool) → String → List String
unfolding push_first
split_by is_sep String.[] = "" ∷ []
split_by is_sep (String.◌∷◌ c s) =
    let rest = split_by is_sep s in if is_sep (code c) then "" ∷ rest else push_first c rest

-- `s.split(sep)` for a `sep` of one character
abbrev pub split_on : ℕ → String → List String
split_on sep = split_by (nat_eq sep)

-- `c.isspace()`
unfoldable pub is_space : ℕ → Bool
is_space c =
    leb 9 c && leb c 13
    || leb 28 c && leb c 32
    || nat_eq c 133
    || nat_eq c 160
    || nat_eq c 5760
    || leb 8192 c && leb c 8202
    || nat_eq c 8232
    || nat_eq c 8233
    || nat_eq c 8239
    || nat_eq c 8287
    || nat_eq c 12288

-- `s.split()`: the pieces between white space that are not empty
unfoldable pub words : String → List String
words s = nonempty (split_by is_space s)

abbrev pub is_empty_text : String → Bool
is_empty_text String.[] = true
is_empty_text (String.◌∷◌ c s) = false

-- `$` also matches in front of a newline that ends the text.
unfoldable pub matches_rest : (ℕ → Bool) → String → Bool
matches_rest class String.[] = true
matches_rest class (String.◌∷◌ c s) =
    if class (code c) then matches_rest class s else nat_eq (code c) 10 && is_empty_text s

-- `re.match(r"^[class]+$", s)`
unfoldable pub matches_plus : (ℕ → Bool) → String → Bool
unfolding matches_rest
matches_plus class String.[] = false
matches_plus class (String.◌∷◌ c s) = class (code c) && matches_rest class s
