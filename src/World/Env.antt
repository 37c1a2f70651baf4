-- ===== src/World/Env.antt =====
-- What the program takes from outside: the settings (config.py), the clock and the random source,
-- and the third-party cryptography behind the outbound ports.
use oauth_lab.Prelude.{ℕ, String, Bool, Option, List}
use oauth_lab.Flow.{Outcome}
use oauth_lab.Domain.Client.{Bytes}

pub data TokenFormat : Type 0 where
  opaque jwt : TokenFormat

-- config.py, and the constructor arguments that container.py derives from it
pub record Settings : Type 0 where
  pub issuer : String
  pub access_token_ttl : ℕ
  pub refresh_token_ttl : ℕ
  pub code_ttl : ℕ
  pub device_code_ttl : ℕ
  pub polling_interval : ℕ
  pub verification_uri : String
  pub expected_audience : String
  pub token_format : TokenFormat

-- the claims that jwt_token_issuer.py encodes
pub record AccessClaims : Type 0 where
  pub iss : String
  pub sub : String
  pub client_id : String
  pub iat : ℕ
  pub nbf : ℕ
  pub exp : ℕ
  pub jti : String
  pub aud : String
  pub scope : Option String

-- the claims that id_token_issuer.py encodes
pub record IdClaims : Type 0 where
  pub iss : String
  pub sub : String
  pub aud : String
  pub iat : ℕ
  pub exp : ℕ
  pub auth_time : Option ℕ
  pub nonce : Option String
  pub at_hash : Option String

-- The payload that `jwt.decode` returns, with the claims that are texts; `none` where one is absent.
pub record Payload : Type 0 where
  pub iss : Option String
  pub sub : Option String
  pub client_id : Option String
  pub scope : Option String
  pub aud : Option (List String)
  pub exp : Option ℕ
  pub nbf : Option ℕ
  pub iat : Option ℕ
  pub jti : Option String

-- The exceptions of PyJWT that the adapters tell apart.
pub data JwtFailure : Type 0 where
  expired_signature immature_signature invalid_audience invalid_issuer : JwtFailure
  invalid_signature : JwtFailure
  missing_required_claim : String → JwtFailure
  other_failure : String → JwtFailure

-- The arguments of a verifying `jwt.decode`.
pub record DecodeOptions : Type 0 where
  pub key : Bytes
  pub algorithms : List String
  pub audience : Option (List String)
  pub issuer : String
  pub required : List String

-- the payload of a session cookie; `none` where a field is missing or no text
pub record SessionPayload : Type 0 where
  pub sub : Option String
  pub csrf : Option String

-- `now_at n` is the n-th `datetime.now(tz=UTC)` and `token_at n k` the n-th
-- `secrets.token_urlsafe(k)`, as `below_at n k` is the n-th index that `secrets.choice` draws below k. `s256` is base64url(SHA-256(ascii(s))) with no padding, `at_hash` the
-- same over the left half of the digest of the signing algorithm. `verify_secret` is argon2's
-- verification. The functions that read the wall clock themselves (`decode`, `load_session`) are
-- given how often the clock has been read, as the moment of the call.
pub record Env : Type 0 where
  pub settings : Settings
  pub open settings use *
  pub public_key_pem : Bytes
  pub algorithm : String
  pub now_at : ℕ → ℕ
  pub token_at : ℕ → ℕ → String
  pub s256 : String → String
  pub at_hash : String → String
  pub encode_access : AccessClaims → String
  pub encode_id : IdClaims → String
  pub decode : ℕ → DecodeOptions → String → Outcome JwtFailure Payload
  pub decode_unverified : String → Outcome JwtFailure Payload
  pub verify_secret : Bytes → String → Bool
  pub load_session : ℕ → String → Option SessionPayload
  pub sign_session : String → String → String
  pub below_at : ℕ → ℕ → ℕ
