-- ===== src/ClientAuth/Basic.antt =====
-- `_decode` of application/service/client_auth/client_secret_basic_authenticator.py. Base64 with UTF-8
-- and percent-decoding are parameters; a text that is not ASCII makes `b64decode` raise a `ValueError`
-- that is none of the exceptions that `_decode` catches.
use oauth_lab.Prelude.{String, Option, none, some, not, is_ascii, if◌then◌else◌, nat_eq}
use Prim.Native.Char.{code}
use oauth_lab.Flow.{Outcome, ok, raised}
use oauth_lab.Domain.Errors.{Exception, failure, invalid_client, value_error, ascii_expected}

-- `base64.b64decode(s, validate=True).decode("utf-8")` of an ASCII text, `none` where either step fails, and
-- `urllib.parse.unquote`
pub record Decoder : Type 0 where
  pub b64_utf8 : String → Option String
  pub unquote : String → String

-- `raw.split(":", 1)`; `none` where there is no colon
unfoldable pub split_colon : String → Option (String × String)
split_colon String.[] = none
split_colon (String.◌∷◌ c s) =
    let rest = split_colon s in
    if nat_eq (code c) b':'
    then some ("", s)
    else elim rest [ none ↦ none | some (a, b) ↦ some (String.◌∷◌ c a, b) ]

unfoldable pub decode_basic : Decoder → String → Outcome Exception (String × String)
unfolding is_ascii
decode_basic d header =
    if not (is_ascii header)
    then raised (value_error ascii_expected)
    else elim (d.b64_utf8 header) [
      | none ↦ raised (failure invalid_client "malformed Basic credentials")
      | some raw ↦ elim (split_colon raw) [
        | none ↦ raised (failure invalid_client "malformed Basic credentials")
        | some (id, secret) ↦ ok (d.unquote id, d.unquote secret)
      ]
    ]
