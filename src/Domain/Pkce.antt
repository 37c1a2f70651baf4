-- ===== src/Domain/Pkce.antt =====
-- oauth_lab/domain/model/pkce.py and domain/service/pkce_verifier.py
pub mod Accepted
use oauth_lab.Prelude.{
  ℕ, String, Bool, ◌&&◌, ◌||◌, not, ◌==◌, leb, nat_eq, str_len, matches_plus, if◌then◌else◌,
}
use oauth_lab.Flow.{Outcome, ok, raised}
use oauth_lab.Domain.Errors.{
  Exception, value_error, challenge_method, challenge_length, challenge_characters,
}

-- the class `[A-Za-z0-9\-._~]`
unfoldable pub is_unreserved : ℕ → Bool
is_unreserved c =
    leb b'A' c && leb c b'Z'
    || leb b'a' c && leb c b'z'
    || leb b'0' c && leb c b'9'
    || nat_eq c b'-'
    || nat_eq c b'.'
    || nat_eq c b'_'
    || nat_eq c b'~'

abbrev pub min_len : ℕ
min_len = 43

abbrev pub max_len : ℕ
max_len = 128

pub record PkceChallenge : Type 0 where
  pub value : String
  pub method : String

-- `_MIN_LEN <= len(s) <= _MAX_LEN`
abbrev pub fits : String → Bool
fits s = leb min_len (str_len s) && leb (str_len s) max_len

-- `PKCEChallenge(value=..., method=...)`
unfoldable pub pkce_challenge : String → String → Outcome Exception PkceChallenge
pkce_challenge value method =
    if not (method == "S256")
    then raised (value_error (challenge_method method))
    else if not (fits value)
    then raised (value_error (challenge_length (str_len value)))
    else if not (matches_plus is_unreserved value)
    then raised (value_error challenge_characters)
    else ok (record { value = value; method = method })

unfoldable pub is_valid_code_verifier : String → Bool
is_valid_code_verifier s = fits s && matches_plus is_unreserved s

-- `PKCEVerifier.verify`; `s256` is base64url(SHA-256(ascii(s))) with no padding
unfoldable pub verify : (String → String) → String → PkceChallenge → Bool
verify s256 code_verifier challenge =
    is_valid_code_verifier code_verifier && s256 code_verifier == challenge.value
