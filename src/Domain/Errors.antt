-- ===== src/Domain/Errors.antt =====
-- oauth_lab/domain/model/errors.py, with `InvalidCredentialsError` of
-- application/port/inbound/login_use_case.py, and the other exceptions that the modelled code raises.
use oauth_lab.Prelude.{ℕ, String, Option, none, some, if◌then◌else◌}
use oauth_lab.Prelude.{Bool}
use oauth_lab.Flow.{Outcome, ok, raised}

-- One constructor for each subclass of `OAuthError`.
pub data ErrorClass : Type 0 where
  invalid_request invalid_client invalid_grant unauthorized_client : ErrorClass
  unsupported_grant_type invalid_scope server_error temporarily_unavailable : ErrorClass
  access_denied invalid_token authorization_pending slow_down expired_token : ErrorClass
  invalid_credentials : ErrorClass

-- `error_code` of each class
unfoldable pub error_code : ErrorClass → String
error_code invalid_request = "invalid_request"
error_code invalid_client = "invalid_client"
error_code invalid_grant = "invalid_grant"
error_code unauthorized_client = "unauthorized_client"
error_code unsupported_grant_type = "unsupported_grant_type"
error_code invalid_scope = "invalid_scope"
error_code server_error = "server_error"
error_code temporarily_unavailable = "temporarily_unavailable"
error_code access_denied = "access_denied"
error_code invalid_token = "invalid_token"
error_code authorization_pending = "authorization_pending"
error_code slow_down = "slow_down"
error_code expired_token = "expired_token"
error_code invalid_credentials = "invalid_credentials"

-- The `ValueError`s that the value objects and the enumerations raise; each determines its message.
pub data ValueError : Type 0 where
  client_id_empty client_id_too_long : ValueError
  challenge_method : String → ValueError
  challenge_length : ℕ → ValueError
  challenge_characters : ValueError
  scope_token : String → ValueError
  issuer_algorithm : String → ValueError
  issuer_key_empty issuer_audiences_empty : ValueError
  unknown_grant : String → ValueError
  unknown_method : String → ValueError
  jwt_algorithm_refused : String → ValueError
  unknown_token_format : String → ValueError
  ascii_expected : ValueError

-- A description: a plain text, a text around the `repr` of a value, or `str` of another exception.
pub data Message : Type 0 where
  text : String → Message
  around_repr : String → String → String → Message
  str_of : ValueError → Message
  library_failure : String → Message

pub record OauthError : Type 0 where
  pub class : ErrorClass
  pub description : Option Message
  pub uri : Option String

pub data Exception : Type 0 where
  oauth : OauthError → Exception
  value_error : ValueError → Exception
  assertion_error : Exception
  key_error : String → Exception
  integrity_error : Exception
  type_error : Exception
  runtime_error : Exception

-- `InvalidGrant("...")` and the like
abbrev pub oauth_error : ErrorClass → Message → Exception
oauth_error c m = oauth (record { class = c; description = some m; uri = none })

abbrev pub failure : ErrorClass → String → Exception
failure c m = oauth_error c (text m)

abbrev pub check {ℓ} : {A : Type ℓ} → Bool → Exception → A → Outcome Exception A
check passes e a = if passes then ok a else raised e

-- the value of the first call is used by the second one
abbrev pub and_then :
    {A B : Type 0} → Outcome Exception A → (A → Outcome Exception B) → Outcome Exception B
and_then (ok a) f = f a
and_then (raised e) f = raised e
