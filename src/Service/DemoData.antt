-- ===== src/Service/DemoData.antt =====
-- The specifications of application/service/seed_demo_data_service.py and the data that it seeds.
use oauth_lab.Prelude.{String, Option, none, some, List, [], ◌∷◌}
use oauth_lab.Domain.Client.{
  GrantType, ClientAuthMethod, client_credentials, authorization_code, refresh_token, device_code,
  jwt_bearer, token_exchange, client_secret_basic, no_auth,
}

pub record ClientSpec : Type 0 where
  pub id : String
  pub secret : Option String
  pub auth_method : ClientAuthMethod
  pub grants : List GrantType
  pub scopes : List String
  pub audience : Option String

pub record UserSpec : Type 0 where
  pub sub : String
  pub username : String
  pub password : String
  pub email : Option String

pub record TrustedIssuerSpec : Type 0 where
  pub issuer : String
  pub algorithm : String
  pub audiences : List String

abbrev pub demo_scopes : List String
demo_scopes = "read" ∷ "write" ∷ []

-- `_DEMO_CLIENTS`
abbrev pub demo_clients : List ClientSpec
demo_clients =
    record {
      id = "demo-client";
      secret = some "demo-secret";
      auth_method = client_secret_basic;
      grants = client_credentials ∷ [];
      scopes = demo_scopes;
      audience = some "https://api.example.com";
    }
    ∷ record {
      id = "demo-spa";
      secret = none;
      auth_method = no_auth;
      grants = authorization_code ∷ refresh_token ∷ [];
      scopes = demo_scopes;
      audience = some "https://api.example.com";
    }
    ∷ record {
      id = "demo-device";
      secret = none;
      auth_method = no_auth;
      grants = device_code ∷ refresh_token ∷ [];
      scopes = demo_scopes;
      audience = some "https://api.example.com";
    }
    ∷ record {
      id = "demo-jwt-bearer";
      secret = some "demo-jwt-bearer-secret";
      auth_method = client_secret_basic;
      grants = jwt_bearer ∷ [];
      scopes = demo_scopes;
      audience = some "https://api.example.com";
    }
    ∷ record {
      id = "demo-exchange";
      secret = some "demo-exchange-secret";
      auth_method = client_secret_basic;
      grants = client_credentials ∷ token_exchange ∷ [];
      scopes = demo_scopes;
      audience = some "https://api.example.com";
    }
    ∷ []

-- `_DEMO_USERS`
abbrev pub demo_users : List UserSpec
demo_users =
    record {
      sub = "user-alice";
      username = "alice";
      password = "alice-password";
      email = some "alice@example.com";
    }
    ∷ []

abbrev pub public_redirect_uris : List String
public_redirect_uris = "http://localhost:8080/callback" ∷ []

-- `_DEMO_TRUSTED_ISSUERS`
abbrev pub demo_trusted_issuers : List TrustedIssuerSpec
demo_trusted_issuers =
    record {
      issuer = "https://idp.example.com";
      algorithm = "RS256";
      audiences = "http://localhost:8000/token" ∷ [];
    }
    ∷ []
