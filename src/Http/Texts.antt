-- ===== src/Http/Texts.antt =====
-- The methods of Python's `str` that the controllers use. The case of a letter is changed for ASCII,
-- which decides the comparisons with ASCII texts that these are used for in headers.
use Prim.Native.Char.{code}
use Prim.Native.Nat.{◌-◌}
use Prim.Native.String.{◌++◌}
use oauth_lab.Prelude.{
  ℕ, suc, zero, String, Bool, true, false, ◌&&◌, ◌||◌, leb, nat_eq, is_space, is_empty_text,
  if◌then◌else◌,
}
use oauth_lab.Service.Device.{letter_at}

abbrev pub lower_letters : String
lower_letters = "abcdefghijklmnopqrstuvwxyz"

-- `s.lower()`
unfoldable pub lower : String → String
unfolding letter_at
lower String.[] = ""
lower (String.◌∷◌ c s) =
    let rest = lower s in
    if leb b'A' (code c) && leb (code c) b'Z'
    then letter_at lower_letters (code c - b'A') ++ rest
    else String.◌∷◌ c rest

-- `s.startswith(prefix)`
unfoldable pub starts_with : String → String → Bool
starts_with s String.[] = true
starts_with String.[] (String.◌∷◌ c prefix) = false
starts_with (String.◌∷◌ d s) (String.◌∷◌ c prefix) =
    nat_eq (code d) (code c) && starts_with s prefix

-- `needle in s`
unfoldable pub occurs : String → String → Bool
unfolding starts_with
occurs needle String.[] = is_empty_text needle
occurs needle (String.◌∷◌ c s) = starts_with (String.◌∷◌ c s) needle || occurs needle s

-- `s[n:]`
unfoldable pub drop : ℕ → String → String
drop zero s = s
drop (suc n) String.[] = ""
drop (suc n) (String.◌∷◌ c s) = drop n s

unfoldable pub lstrip : String → String
lstrip String.[] = ""
lstrip (String.◌∷◌ c s) = let rest = lstrip s in if is_space (code c) then rest else String.◌∷◌ c s

-- `s.rstrip(...)`, by the test of the characters that go
unfoldable pub rstrip_by : (ℕ → Bool) → String → String
rstrip_by goes String.[] = ""
rstrip_by goes (String.◌∷◌ c s) =
    let rest = rstrip_by goes s in
    if is_empty_text rest && goes (code c) then "" else String.◌∷◌ c rest

-- `s.strip()`
unfoldable pub strip : String → String
strip s = lstrip (rstrip_by is_space s)

-- `s.partition(" ")`, without the separator
unfoldable pub partition_space : String → String × String
partition_space String.[] = ("", "")
partition_space (String.◌∷◌ c s) =
    let rest = partition_space s in
    if nat_eq (code c) b' ' then ("", s) else (String.◌∷◌ c rest.0, rest.1)
