-- ===== src/Http/Url/Encoded.antt =====
-- The query of a redirect holds the parameters that were put into it, and no others.
use Prim.Native.Char.{Char, code}
use Prim.Native.String.{◌++◌}
use Prim.Native.Nat.{◌%◌}
use text.Mathlib.TextLemmas.{nil-append, cons-append}
use oauth_lab.Prelude.{
  ℕ, zero, suc, ◌/◌, String, Option, some, List, [], ◌∷◌, map, Bool, true, false, ◌||◌, ◌≡◌, ◌∙◌,
  ap, refl, arith, none, not, ◌==◌, ◌&&◌, nat_eq, split_on, if◌then◌else◌,
}
use oauth_lab.Prelude.Patterns.{every_char, every_char-cons}
use oauth_lab.Prelude.Split
use oauth_lab.Prelude.Split.{every_char-append}
use oauth_lab.Dict.{Dict, get, put, get-put, get-put_self}
use oauth_lab.Service.Session.{truthy}
use oauth_lab.Http.Texts.{occurs}
use oauth_lab.Service.Device.{letter_at}
use oauth_lab.Http.Url.{
  always_safe, hex_digits, percent, percent_all, utf8, quote_with, quote, pair_text, urlencode,
  put_state, response_query, encode_authorization_response,
}

-- a character of an encoded parameter
unfoldable pub is_encoded : ℕ → Bool
is_encoded c = always_safe c || nat_eq c b'%' || nat_eq c b'='

encoded-not_separator : (c : ℕ) → is_encoded c ≡ true → nat_eq b'&' c ≡ false
unfolding is_encoded always_safe
encoded-not_separator c h = ground arith

letter_at-encoded :
    (s : String) (i : ℕ)
    → every_char is_encoded s ≡ true
    → every_char is_encoded (letter_at s i) ≡ true
unfolding letter_at every_char
letter_at-encoded String.[] i h = refl
letter_at-encoded (String.◌∷◌ c s) zero h = ground arith
letter_at-encoded (String.◌∷◌ c s) (suc i) h = letter_at-encoded s i (ground arith)

hex_digits-encoded : every_char is_encoded hex_digits ≡ true
unfolding every_char is_encoded always_safe
hex_digits-encoded = refl

sign-encoded : every_char is_encoded "%" ≡ true
unfolding every_char is_encoded always_safe
sign-encoded = refl

percent-encoded : (b : ℕ) → every_char is_encoded (percent b) ≡ true
unfolding percent
percent-encoded b = ground (
  arith,
  every_char-append is_encoded "%" (letter_at hex_digits (b / 16) ++ letter_at hex_digits (b % 16)),
  every_char-append is_encoded (letter_at hex_digits (b / 16)) (letter_at hex_digits (b % 16)),
  sign-encoded,
  letter_at-encoded hex_digits (b / 16) hex_digits-encoded,
  letter_at-encoded hex_digits (b % 16) hex_digits-encoded,
)

append-encoded :
    (s t : String)
    → every_char is_encoded s ≡ true
    → every_char is_encoded t ≡ true
    → every_char is_encoded (s ++ t) ≡ true
append-encoded s t h k = ground (arith, every_char-append is_encoded s t)

nil-encoded : every_char is_encoded "" ≡ true
unfolding every_char
nil-encoded = refl

percent_all-encoded : (bs : List ℕ) → every_char is_encoded (percent_all bs) ≡ true
unfolding percent_all
percent_all-encoded [] = nil-encoded
percent_all-encoded (b ∷ bs) = append-encoded _ _ (percent-encoded b) (percent_all-encoded bs)

safe-encoded : (c : ℕ) → always_safe c ≡ true → is_encoded c ≡ true
unfolding is_encoded
safe-encoded c h = ground arith

quote_with-cons :
    (space : String) (c : Char) (s : String)
    → quote_with space (String.◌∷◌ c s) ≡ (
        if always_safe (code c)
        then String.◌∷◌ c (quote_with space s)
        else if nat_eq (code c) b' '
        then space ++ quote_with space s
        else percent_all (utf8 (code c)) ++ quote_with space s)
unfolding quote_with
quote_with-cons space c s = refl

quote_with-nil : (space : String) → quote_with space "" ≡ ""
unfolding quote_with
quote_with-nil space = refl

quote_with-encoded :
    (space s : String)
    → every_char is_encoded space ≡ true
    → every_char is_encoded (quote_with space s) ≡ true
quote_with-encoded space String.[] h =
    ap (every_char is_encoded) (quote_with-nil space) ∙ nil-encoded
quote_with-encoded space (String.◌∷◌ c s) h = ground (
  arith,
  quote_with-cons space c s,
  every_char-cons is_encoded c (quote_with space s),
  safe-encoded (code c),
  quote_with-encoded space s h,
  every_char-append is_encoded space (quote_with space s),
  every_char-append is_encoded (percent_all (utf8 (code c))) (quote_with space s),
  percent_all-encoded (utf8 (code c)),
)

quote-encoded : (s : String) → every_char is_encoded (quote s) ≡ true
unfolding quote every_char is_encoded always_safe
quote-encoded s = quote_with-encoded "%20" s refl

equals-encoded : every_char is_encoded "=" ≡ true
unfolding every_char is_encoded always_safe
equals-encoded = refl

pair_text-encoded : (p : String × String) → every_char is_encoded (pair_text p) ≡ true
unfolding pair_text
pair_text-encoded (k, v) =
    append-encoded _ _ (quote-encoded k) (append-encoded _ _ equals-encoded (quote-encoded v))

and-cons : (t : String) → "&" ++ t ≡ String.◌∷◌ "&" t
and-cons t = ground (arith, cons-append "&" "" t, nil-append t)

abbrev is_nil : Dict String → Bool
is_nil [] = true
is_nil (_ ∷ _) = false

urlencode-pieces :
    (ps : Dict String) → is_nil ps ≡ false → split_on b'&' (urlencode ps) ≡ map pair_text ps
unfolding urlencode
urlencode-pieces [] h = cc
urlencode-pieces (p ∷ []) h =
    Split.split-last is_encoded (nat_eq b'&') encoded-not_separator (pair_text p)
      (pair_text-encoded p)
urlencode-pieces (p ∷ q ∷ ps) h =
    ap (λ t. split_on b'&' (pair_text p ++ t)) (and-cons (urlencode (q ∷ ps)))
    ∙ Split.split-word is_encoded (nat_eq b'&') encoded-not_separator (pair_text p) "&"
        (urlencode (q ∷ ps)) (pair_text-encoded p) refl
    ∙ ap (λ r. pair_text p ∷ r) (urlencode-pieces (q ∷ ps) refl)

put-not_nil : (d : Dict String) (k v : String) → is_nil (put d k v) ≡ false
unfolding put
put-not_nil [] k v = refl
put-not_nil ((j, w) ∷ d) k v = ground arith

-- what a parameter of the response is
abbrev pub stands_for : Dict String → Option String → String → String → Option String
stands_for params none issuer k = if "iss" == k then some issuer else get params k
stands_for params (some s) issuer k =
    if "iss" == k
    then some issuer
    else if "state" == k && not (s == "")
    then some s
    else get params k

named :
    (params : Dict String) (state : Option String) (issuer k : String)
    → (if "iss" == k then some issuer else get (put_state (truthy state) params) k)
      ≡ stands_for params state issuer k
named params none issuer k = refl
named params (some s) issuer k = ground (arith, get-put params "state" k s)

-- The redirect of an authorization response is the redirect URI, a separator, and a query whose
-- pieces between `&` are the parameters, one by one, each with its own name and value encoded. A
-- name `k` stands for the issuer where it is `iss`, else for the state where it is `state` and there
-- is one that is not empty, and else for what it is in the given parameters. So no value, neither the
-- state nor a description, brings a parameter in.
pub encode_authorization_response-pieces :
    (redirect_uri : String) (params : Dict String) (state : Option String) (issuer k : String)
    → let query = response_query params state issuer in
      (encoded : String) × ((encode_authorization_response redirect_uri params state issuer
          ≡ redirect_uri ++ (if occurs "?" redirect_uri then "&" else "?") ++ encoded)
        × ((split_on b'&' encoded ≡ map pair_text query)
            × ((get query "iss" ≡ some issuer) × (get query k ≡ stands_for params state issuer k))))
unfolding encode_authorization_response response_query
encode_authorization_response-pieces redirect_uri params state issuer k =
    let query = response_query params state issuer in
    (
      urlencode query,
      (
        refl,
        (
          urlencode-pieces query (put-not_nil (put_state (truthy state) params) "iss" issuer),
          (
            get-put_self (put_state (truthy state) params) "iss" issuer,
            get-put (put_state (truthy state) params) "iss" k issuer ∙ named params state issuer k,
          ),
        ),
      ),
    )
