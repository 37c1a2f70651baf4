-- ===== src/Jwt.antt =====
-- The adapters over PyJWT: adapter/outbound/crypto/jwt_subject_token_validator.py,
-- pyjwt_assertion_verifier.py and jwt_access_token_verifier.py. `jwt.decode` is a parameter.
pub mod Keeps
use Prim.Native.String.{◌++◌}
use oauth_lab.Prelude.{ℕ, ◌*◌, String, Option, none, some, List, [], ◌∷◌, contains, words}
use oauth_lab.Flow.{Outcome, ok, raised, pure, lift, or_raise, guard, ◌>>=◌, ◌>>◌}
use oauth_lab.Domain.Errors.{
  Exception, value_error, key_error, failure, oauth_error, around_repr, str_of, library_failure,
  invalid_request, invalid_grant, invalid_token,
}
use oauth_lab.Domain.Scope.{ScopeSet, scopes_of, parse}
use oauth_lab.Domain.Client.{
  TrustedAssertionIssuer, uri_value, access_token_type, id_token_type, jwt_type,
}
use oauth_lab.World.{Service}
use oauth_lab.World.Env.{
  Env, Payload, JwtFailure, DecodeOptions, expired_signature, immature_signature, invalid_audience,
  invalid_issuer, invalid_signature, missing_required_claim, other_failure,
}

pub record SubjectTokenClaims : Type 0 where
  pub subject : String
  pub client_id : Option String
  pub issuer : String
  pub audience : List String
  pub scope : ScopeSet
  pub expires_at : ℕ

pub record AssertionClaims : Type 0 where
  pub issuer : String
  pub subject : String
  pub audience : List String
  pub expires_at : ℕ
  pub not_before : Option ℕ
  pub issued_at : Option ℕ
  pub jwt_id : Option String

pub record AccessTokenClaims : Type 0 where
  pub sub : Option String
  pub scope : ScopeSet

-- `datetime.fromtimestamp(n, tz=UTC)`
abbrev from_timestamp : ℕ → ℕ
from_timestamp n = n * 1000000

abbrev or_nil : Option (List String) → List String
or_nil none = []
or_nil (some xs) = xs

abbrev or_empty : Option String → String
or_empty none = ""
or_empty (some s) = s

abbrev map_stamp : Option ℕ → Option ℕ
map_stamp none = none
map_stamp (some n) = some (from_timestamp n)

-- the handlers around `jwt.decode` of the subject-token validator
unfoldable pub subject_failure : JwtFailure → Exception
subject_failure expired_signature = failure invalid_grant "subject_token has expired"
subject_failure invalid_issuer = failure invalid_grant "subject_token issuer is not this AS"
subject_failure invalid_signature = failure invalid_grant "subject_token signature is invalid"
subject_failure (missing_required_claim c) =
    failure invalid_grant ("subject_token missing required claim: " ++ c)
subject_failure immature_signature =
    oauth_error invalid_grant (library_failure "subject_token is invalid: ")
subject_failure invalid_audience =
    oauth_error invalid_grant (library_failure "subject_token is invalid: ")
subject_failure (other_failure m) = failure invalid_grant ("subject_token is invalid: " ++ m)

-- the handlers of the assertion verifier
unfoldable pub assertion_failure : JwtFailure → Exception
assertion_failure expired_signature = failure invalid_grant "assertion has expired"
assertion_failure immature_signature =
    failure invalid_grant "assertion not yet valid (nbf in the future)"
assertion_failure invalid_audience =
    failure invalid_grant "assertion audience does not match this AS"
assertion_failure invalid_issuer =
    failure invalid_grant "assertion issuer does not match trusted record"
assertion_failure invalid_signature = failure invalid_grant "assertion signature is invalid"
assertion_failure (missing_required_claim c) =
    failure invalid_grant ("assertion missing required claim: " ++ c)
assertion_failure (other_failure m) = failure invalid_grant ("assertion is invalid: " ++ m)

abbrev rename {ℓ} :
    {A : Type ℓ} → (JwtFailure → Exception) → Outcome JwtFailure A → Outcome Exception A
rename f (ok a) = ok a
rename f (raised e) = raised (f e)

module _ (env : Env) where
  abbrev own_options : List String → DecodeOptions
  own_options required = record {
    key = env.public_key_pem;
    algorithms = env.algorithm ∷ [];
    audience = none;
    issuer = env.issuer;
    required = required;
  }

  abbrev assertion_options : TrustedAssertionIssuer → String → DecodeOptions
  assertion_options trusted expected = record {
    key = trusted.public_key_pem;
    algorithms = trusted.algorithm ∷ [];
    audience = some (expected ∷ trusted.allowed_audiences);
    issuer = trusted.issuer;
    required = "exp" ∷ "iss" ∷ "sub" ∷ "aud" ∷ [];
  }

  -- a call of `jwt.decode` at the moment of the call
  unfoldable pub decode : DecodeOptions → (JwtFailure → Exception) → String → Service Payload
  decode options handler token w = (rename handler (env.decode w.reads options token), w)

  -- `JwtSubjectTokenValidator.validate`
  unfoldable pub validate : String → String → Service SubjectTokenClaims
  validate token token_type = do
    guard
        (contains (uri_value access_token_type ∷ uri_value id_token_type ∷ uri_value jwt_type ∷ [])
          token_type)
        (oauth_error invalid_request
          (around_repr "subject_token_type " token_type " is not supported by this AS"))
    decoded ← decode (own_options ("exp" ∷ "iss" ∷ "sub" ∷ [])) subject_failure token
    scopes ← lift (scopes_of (words (or_empty decoded.scope)))
    sub ← or_raise decoded.sub (key_error "sub")
    iss ← or_raise decoded.iss (key_error "iss")
    exp ← or_raise decoded.exp (key_error "exp")
    pure (record {
      subject = sub;
      client_id = decoded.client_id;
      issuer = iss;
      audience = or_nil decoded.aud;
      scope = record { scopes = scopes };
      expires_at = from_timestamp exp;
    })

  -- `PyJwtAssertionVerifier.verify`
  unfoldable pub verify_assertion :
      String → TrustedAssertionIssuer → String → Service AssertionClaims
  verify_assertion assertion trusted expected_audience = do
    decoded ← decode (assertion_options trusted expected_audience) assertion_failure assertion
    aud ← or_raise decoded.aud (key_error "aud")
    iss ← or_raise decoded.iss (key_error "iss")
    sub ← or_raise decoded.sub (key_error "sub")
    exp ← or_raise decoded.exp (key_error "exp")
    pure (record {
      issuer = iss;
      subject = sub;
      audience = aud;
      expires_at = from_timestamp exp;
      not_before = map_stamp decoded.nbf;
      issued_at = map_stamp decoded.iat;
      jwt_id = decoded.jti;
    })

  abbrev invalid_access : JwtFailure → Exception
  invalid_access f = oauth_error invalid_token (library_failure "")

  abbrev malformed_scope : {A : Type 0} → Outcome Exception A → Outcome Exception A
  malformed_scope (ok a) = ok a
  malformed_scope (raised (value_error v)) = raised (oauth_error invalid_token (str_of v))
  malformed_scope (raised e) = raised e

  -- `JwtAccessTokenVerifier.verify`
  unfoldable pub verify_access_token : String → Service AccessTokenClaims
  verify_access_token token = do
    decoded ← decode (own_options ("exp" ∷ "sub" ∷ [])) invalid_access token
    scope ← lift (malformed_scope (parse decoded.scope))
    pure (record { sub = decoded.sub; scope = scope })
