-- ===== src/Rest/Discovery.antt =====
-- application/service/server_metadata_service.py, which rest/discovery_controller.py answers with, and
-- rest/jwks_controller.py
pub mod Advertised
use Prim.Native.String.{◌++◌}
use oauth_lab.Prelude.{
  ℕ, String, Option, none, some, List, [], ◌∷◌, Bool, true, not, ◌&&◌, nat_eq, if◌then◌else◌,
}
use oauth_lab.Dict.{Dict, put}
use oauth_lab.Domain.Client.{GrantType}
use oauth_lab.ClientAuth.{Authenticator, supported_methods}
use oauth_lab.Service.IssueToken.{supported_grant_types}
use oauth_lab.Http.{Response, Value, string, boolean, strings, json_response}
use oauth_lab.Http.Texts.{lower, occurs, rstrip_by}

-- the constructor arguments of `ServerMetadataService`
pub record ServerMetadata : Type 0 where
  pub issuer : String
  pub grants : List GrantType
  pub client_auth : List Authenticator
  pub scopes_supported : List String
  pub id_token_signing_alg : String

-- `self._issuer`: `issuer.rstrip("/")`
unfoldable pub metadata_issuer : ServerMetadata → String
unfolding rstrip_by
metadata_issuer m = rstrip_by (nat_eq b'/') m.issuer

unfoldable pub oauth_metadata : ServerMetadata → Dict Value
unfolding metadata_issuer
oauth_metadata m =
    let issuer = metadata_issuer m in
    ("issuer", string issuer)
    ∷ ("authorization_endpoint", string (issuer ++ "/authorize"))
    ∷ ("token_endpoint", string (issuer ++ "/token"))
    ∷ ("jwks_uri", string (issuer ++ "/jwks"))
    ∷ ("device_authorization_endpoint", string (issuer ++ "/device_authorization"))
    ∷ ("response_types_supported", strings ("code" ∷ []))
    ∷ ("grant_types_supported", strings (supported_grant_types m.grants))
    ∷ ("code_challenge_methods_supported", strings ("S256" ∷ []))
    ∷ ("token_endpoint_auth_methods_supported", strings (supported_methods m.client_auth))
    ∷ ("scopes_supported", strings m.scopes_supported)
    ∷ ("authorization_response_iss_parameter_supported", boolean true)
    ∷ []

-- `metadata.update(entries)`
unfoldable pub update : Dict Value → Dict Value → Dict Value
unfolding put
update d [] = d
update d ((k, v) ∷ entries) = update (put d k v) entries

unfoldable pub openid_metadata : ServerMetadata → Dict Value
unfolding update oauth_metadata
openid_metadata m =
    let issuer = metadata_issuer m in
    update (oauth_metadata m) (
      ("userinfo_endpoint", string (issuer ++ "/userinfo"))
      ∷ ("subject_types_supported", strings ("public" ∷ []))
      ∷ ("id_token_signing_alg_values_supported", strings (m.id_token_signing_alg ∷ []))
      ∷ (
        "claims_supported",
        strings (
            "sub" ∷ "iss" ∷ "aud" ∷ "exp" ∷ "iat" ∷ "auth_time" ∷ "nonce" ∷ "at_hash"
            ∷ "preferred_username" ∷ "email" ∷ "email_verified" ∷ []),
      )
      ∷ [])

-- The answer of `/jwks` to an `Accept` header: the media type, for the keys that the provider has.
unfoldable pub jwks_media_type : Option String → String
unfolding lower occurs
jwks_media_type accept =
    let accepts = lower (elim accept [ none ↦ "" | some a ↦ a ]) in
    if not (occurs "application/jwk-set+json" accepts) && occurs "application/json" accepts
    then "application/json"
    else "application/jwk-set+json"

unfoldable pub jwks_document : Dict Value → Option String → Response
unfolding jwks_media_type
jwks_document keys accept =
    json_response 200
      (("Cache-Control", "public, max-age=3600") ∷ ("Content-Type", jwks_media_type accept) ∷ [])
      keys
