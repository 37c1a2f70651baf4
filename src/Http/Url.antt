-- ===== src/Http/Url.antt =====
-- `quote`, `quote_plus` and `urlencode` of urllib.parse, with no safe character beside the unreserved
-- ones, and the redirect of web/authorization_response.py.
pub mod Encoded
use Prim.Native.Char.{Char, code}
use Prim.Native.String.{◌++◌}
use Prim.Native.Nat.{◌%◌}
use oauth_lab.Prelude.{
  ℕ, ◌+◌, ◌/◌, String, Option, none, some, List, [], ◌∷◌, Bool, ◌&&◌, ◌||◌, leb, ltb, nat_eq,
  if◌then◌else◌,
}
use oauth_lab.Dict.{Dict, put}
use oauth_lab.Http.Texts.{occurs}
use oauth_lab.Service.Device.{letter_at}
use oauth_lab.Service.Session.{truthy}

-- `_ALWAYS_SAFE`
unfoldable pub always_safe : ℕ → Bool
always_safe c =
    leb b'A' c && leb c b'Z'
    || leb b'a' c && leb c b'z'
    || leb b'0' c && leb c b'9'
    || nat_eq c b'_'
    || nat_eq c b'.'
    || nat_eq c b'-'
    || nat_eq c b'~'

abbrev pub hex_digits : String
hex_digits = "0123456789ABCDEF"

-- `'%{:02X}'.format(b)`
unfoldable pub percent : ℕ → String
unfolding letter_at
percent b = "%" ++ letter_at hex_digits (b / 16) ++ letter_at hex_digits (b % 16)

-- the UTF-8 of a character
unfoldable pub utf8 : ℕ → List ℕ
utf8 c =
    if ltb c 0x80
    then c ∷ []
    else if ltb c 0x800
    then (0xC0 + c / 64) ∷ (0x80 + c % 64) ∷ []
    else if ltb c 0x10000
    then (0xE0 + c / 4096) ∷ (0x80 + c / 64 % 64) ∷ (0x80 + c % 64) ∷ []
    else (0xF0 + c / 262144) ∷ (0x80 + c / 4096 % 64) ∷ (0x80 + c / 64 % 64) ∷ (0x80 + c % 64) ∷ []

-- each byte with its percent sign
unfoldable pub percent_all : List ℕ → String
unfolding percent
percent_all [] = ""
percent_all (b ∷ bs) = percent b ++ percent_all bs

-- the text with each character quoted, and each space as given
unfoldable pub quote_with : String → String → String
unfolding always_safe percent_all utf8
quote_with space String.[] = ""
quote_with space (String.◌∷◌ c s) =
    let rest = quote_with space s in
    if always_safe (code c)
    then String.◌∷◌ c rest
    else if nat_eq (code c) b' '
    then space ++ rest
    else percent_all (utf8 (code c)) ++ rest

-- `quote(s, safe="")`
unfoldable pub quote : String → String
quote s = quote_with "%20" s

unfoldable pub quote_plus : String → String
quote_plus s = quote_with "+" s

-- one parameter
unfoldable pub pair_text : String × String → String
unfolding quote
pair_text (k, v) = quote k ++ "=" ++ quote v

-- `urlencode(query, quote_via=quote)`
unfoldable pub urlencode : Dict String → String
unfolding pair_text
urlencode [] = ""
urlencode (p ∷ []) = pair_text p
urlencode (p ∷ q ∷ ps) = pair_text p ++ "&" ++ urlencode (q ∷ ps)

-- `if state: query["state"] = state`
abbrev pub put_state : Option String → Dict String → Dict String
put_state none query = query
put_state (some s) query = put query "state" s

-- `query`
unfoldable pub response_query : Dict String → Option String → String → Dict String
unfolding put
response_query params state issuer = put (put_state (truthy state) params) "iss" issuer

unfoldable pub encode_authorization_response :
    String → Dict String → Option String → String → String
unfolding occurs
encode_authorization_response redirect_uri params state issuer =
    redirect_uri
    ++ (if occurs "?" redirect_uri then "&" else "?")
    ++ urlencode (response_query params state issuer)
