-- ===== src/Domain/Client.antt =====
-- oauth_lab/domain/model: client.py, client_id.py, grant_type.py, client_auth_method.py, user.py,
-- token_type_uri.py and trusted_assertion_issuer.py
pub mod Names
use oauth_lab.Prelude.{
  ℕ, String, Option, none, some, List, [], ◌∷◌, Bool, true, false, not, ◌==◌, ltb, is_some, str_len,
  contains, if◌then◌else◌,
}
use oauth_lab.Flow.{Outcome, ok, raised}
use oauth_lab.Domain.Errors.{
  Exception, value_error, client_id_empty, client_id_too_long, issuer_algorithm, issuer_key_empty,
  issuer_audiences_empty,
}
use oauth_lab.Domain.Scope.{ScopeSet}

-- A `ClientId` is equal to another when their texts are.
abbrev pub ClientId : Type 0
ClientId = String

-- `ClientId(value)`
unfoldable pub client_id : String → Outcome Exception ClientId
client_id value =
    if value == ""
    then raised (value_error client_id_empty)
    else if ltb 255 (str_len value)
    then raised (value_error client_id_too_long)
    else ok value

pub data GrantType : Type 0 where
  authorization_code client_credentials refresh_token device_code jwt_bearer : GrantType
  token_exchange : GrantType

-- `gt.value`
unfoldable pub grant_value : GrantType → String
grant_value authorization_code = "authorization_code"
grant_value client_credentials = "client_credentials"
grant_value refresh_token = "refresh_token"
grant_value device_code = "urn:ietf:params:oauth:grant-type:device_code"
grant_value jwt_bearer = "urn:ietf:params:oauth:grant-type:jwt-bearer"
grant_value token_exchange = "urn:ietf:params:oauth:grant-type:token-exchange"

abbrev pub grant_types : List GrantType
grant_types =
    authorization_code ∷ client_credentials ∷ refresh_token ∷ device_code ∷ jwt_bearer
    ∷ token_exchange ∷ []

abbrev find_grant : List GrantType → String → Option GrantType
find_grant [] s = none
find_grant (g ∷ gs) s = if grant_value g == s then some g else find_grant gs s

-- `GrantType(s)`; `none` stands for the `ValueError`
unfoldable pub grant_type : String → Option GrantType
unfolding grant_value
grant_type s = find_grant grant_types s

pub data ClientAuthMethod : Type 0 where
  client_secret_basic client_secret_post client_secret_jwt private_key_jwt : ClientAuthMethod
  tls_client_auth self_signed_tls_client_auth no_auth : ClientAuthMethod

-- `method.value`; `no_auth` is `NONE`
unfoldable pub method_value : ClientAuthMethod → String
method_value client_secret_basic = "client_secret_basic"
method_value client_secret_post = "client_secret_post"
method_value client_secret_jwt = "client_secret_jwt"
method_value private_key_jwt = "private_key_jwt"
method_value tls_client_auth = "tls_client_auth"
method_value self_signed_tls_client_auth = "self_signed_tls_client_auth"
method_value no_auth = "none"

abbrev pub auth_methods : List ClientAuthMethod
auth_methods =
    client_secret_basic ∷ client_secret_post ∷ client_secret_jwt ∷ private_key_jwt ∷ tls_client_auth
    ∷ self_signed_tls_client_auth ∷ no_auth ∷ []

abbrev find_method : List ClientAuthMethod → String → Option ClientAuthMethod
find_method [] s = none
find_method (m ∷ ms) s = if method_value m == s then some m else find_method ms s

-- `ClientAuthMethod(s)`; `none` stands for the `ValueError`
unfoldable pub method_of : String → Option ClientAuthMethod
unfolding method_value
method_of s = find_method auth_methods s

abbrev pub grant_eq : GrantType → GrantType → Bool
grant_eq authorization_code authorization_code = true
grant_eq client_credentials client_credentials = true
grant_eq refresh_token refresh_token = true
grant_eq device_code device_code = true
grant_eq jwt_bearer jwt_bearer = true
grant_eq token_exchange token_exchange = true
grant_eq _ _ = false

abbrev pub method_eq : ClientAuthMethod → ClientAuthMethod → Bool
method_eq client_secret_basic client_secret_basic = true
method_eq client_secret_post client_secret_post = true
method_eq client_secret_jwt client_secret_jwt = true
method_eq private_key_jwt private_key_jwt = true
method_eq tls_client_auth tls_client_auth = true
method_eq self_signed_tls_client_auth self_signed_tls_client_auth = true
method_eq no_auth no_auth = true
method_eq _ _ = false

abbrev pub Bytes : Type 0
Bytes = List ℕ

pub record Client : Type 0 where
  pub id : ClientId
  pub secret_hash : Option Bytes
  pub token_endpoint_auth_method : ClientAuthMethod
  pub allowed_grant_types : List GrantType
  pub allowed_scopes : ScopeSet
  pub redirect_uris : List String
  pub default_audience : Option String

unfoldable pub is_public : Client → Bool
is_public c = not (is_some c.secret_hash)

unfoldable pub is_confidential : Client → Bool
is_confidential c = is_some c.secret_hash

abbrev has_grant : List GrantType → GrantType → Bool
has_grant [] g = false
has_grant (h ∷ hs) g = if grant_eq h g then true else has_grant hs g

unfoldable pub supports_grant : Client → GrantType → Bool
supports_grant c g = has_grant c.allowed_grant_types g

pub record User : Type 0 where
  pub sub : String
  pub username : String
  pub password_hash : Bytes
  pub email : Option String

-- token_type_uri.py
pub data TokenTypeUri : Type 0 where
  access_token_type refresh_token_type id_token_type jwt_type saml1_type saml2_type : TokenTypeUri

unfoldable pub uri_value : TokenTypeUri → String
uri_value access_token_type = "urn:ietf:params:oauth:token-type:access_token"
uri_value refresh_token_type = "urn:ietf:params:oauth:token-type:refresh_token"
uri_value id_token_type = "urn:ietf:params:oauth:token-type:id_token"
uri_value jwt_type = "urn:ietf:params:oauth:token-type:jwt"
uri_value saml1_type = "urn:ietf:params:oauth:token-type:saml1"
uri_value saml2_type = "urn:ietf:params:oauth:token-type:saml2"

pub record TrustedAssertionIssuer : Type 0 where
  pub issuer : String
  pub public_key_pem : Bytes
  pub algorithm : String
  pub allowed_audiences : List String

abbrev pub allowed_algorithms : List String
allowed_algorithms =
    "RS256" ∷ "RS384" ∷ "RS512" ∷ "ES256" ∷ "ES384" ∷ "ES512" ∷ "PS256" ∷ "PS384" ∷ "PS512" ∷ []

abbrev pub is_nil {ℓ} : {A : Type ℓ} → List A → Bool
is_nil [] = true
is_nil (_ ∷ _) = false

-- `__post_init__`
unfoldable pub trusted_issuer : TrustedAssertionIssuer → Outcome Exception TrustedAssertionIssuer
trusted_issuer t =
    if not (contains allowed_algorithms t.algorithm)
    then raised (value_error (issuer_algorithm t.algorithm))
    else if is_nil t.public_key_pem
    then raised (value_error issuer_key_empty)
    else if is_nil t.allowed_audiences
    then raised (value_error issuer_audiences_empty)
    else ok t
