-- ===== src/Service/SeedDemoData.antt =====
-- application/service/seed_demo_data_service.py, with the types of
-- application/port/inbound/seed_demo_data_use_case.py. A `frozenset` is a list.
pub mod Registered
use oauth_lab.Prelude.{
  ℕ, ◌+◌, String, Option, none, some, List, [], ◌∷◌, map, is_some, if◌then◌else◌,
}
use oauth_lab.Flow.{Outcome, ok, raised, pure, lift, ◌>>=◌, ◌>>◌}
use oauth_lab.Domain.Errors.{Exception, and_then}
use oauth_lab.Domain.Scope.{ScopeSet, scope}
use oauth_lab.Domain.Client.{
  Client, User, TrustedAssertionIssuer, GrantType, ClientAuthMethod, Bytes, client_credentials,
  authorization_code, refresh_token, device_code, jwt_bearer, token_exchange, client_secret_basic,
  no_auth, client_id, grant_value, method_value, trusted_issuer,
}
use oauth_lab.Memory.Registry
use oauth_lab.Service.DemoData.{
  ClientSpec, UserSpec, TrustedIssuerSpec, demo_clients, demo_users, demo_trusted_issuers,
  public_redirect_uris,
}
use oauth_lab.World.{World, Service, on_clients, on_users, on_issuers}

pub record SeededClient : Type 0 where
  pub id : String
  pub secret : Option String
  pub auth_method : String
  pub grants : List String
  pub scopes : List String
  pub audience : Option String

pub record SeededUser : Type 0 where
  pub sub : String
  pub username : String
  pub password : String
  pub email : Option String

pub record SeededTrustedIssuer : Type 0 where
  pub issuer : String
  pub algorithm : String
  pub audiences : List String
  pub public_key_pem : Bytes
  pub private_key_pem : Bytes

pub record SeedDemoDataResult : Type 0 where
  pub clients : List SeededClient
  pub users : List SeededUser
  pub trusted_issuers : List SeededTrustedIssuer

-- What `KeyPairGenerator.generate` returns.
pub record KeyPairPem : Type 0 where
  pub private_pem : Bytes
  pub public_pem : Bytes

-- `frozenset(Scope(s) for s in scopes)`
unfoldable pub each_scope : List String → Outcome Exception (List String)
each_scope [] = ok []
each_scope (s ∷ ss) = and_then (scope s) (λ x. and_then (each_scope ss) (λ xs. ok (x ∷ xs)))

-- `hash_at n` is argon2 with the salt of the n-th draw, and `key_pair_at n` the key pair of it.
module _ (hash_at : ℕ → String → Bytes) (key_pair_at : ℕ → KeyPairPem) where
  unfoldable pub hash : String → Service Bytes
  hash secret w = pure (hash_at w.draws secret) (record w { draws = w.draws + 1 })

  unfoldable pub generate : Service KeyPairPem
  generate w = pure (key_pair_at w.draws) (record w { draws = w.draws + 1 })

  abbrev pub hash_secret : Option String → Service (Option Bytes)
  hash_secret none = pure none
  hash_secret (some secret) = do h ← hash secret; pure (some h)

  -- the client of a specification
  unfoldable pub spec_client : ClientSpec → Option Bytes → String → List String → Client
  spec_client spec secret_hash id scopes = record {
    id = id;
    secret_hash = secret_hash;
    token_endpoint_auth_method = spec.auth_method;
    allowed_grant_types = spec.grants;
    allowed_scopes = record { scopes = scopes };
    redirect_uris = if is_some spec.secret then [] else public_redirect_uris;
    default_audience = spec.audience;
  }

  abbrev pub seeded_client : ClientSpec → SeededClient
  seeded_client spec = record {
    id = spec.id;
    secret = spec.secret;
    auth_method = method_value spec.auth_method;
    grants = map grant_value spec.grants;
    scopes = spec.scopes;
    audience = spec.audience;
  }

  -- the first loop
  unfoldable pub seed_clients : List ClientSpec → Service (List SeededClient)
  unfolding spec_client
  seed_clients [] = pure []
  seed_clients (spec ∷ specs) = do
    secret_hash ← hash_secret spec.secret
    id ← lift (client_id spec.id)
    scopes ← lift (each_scope spec.scopes)
    on_clients (Registry.save_client (spec_client spec secret_hash id scopes))
    rest ← seed_clients specs
    pure (seeded_client spec ∷ rest)

  -- the second loop
  unfoldable pub seed_users : List UserSpec → Service (List SeededUser)
  seed_users [] = pure []
  seed_users (spec ∷ specs) = do
    password_hash ← hash spec.password
    on_users (
        Registry.save_user (record {
          sub = spec.sub;
          username = spec.username;
          password_hash = password_hash;
          email = spec.email;
        }))
    rest ← seed_users specs
    pure (
        record {
          sub = spec.sub;
          username = spec.username;
          password = spec.password;
          email = spec.email;
        }
        ∷ rest)

  -- the third loop
  unfoldable pub seed_trusted_issuers : List TrustedIssuerSpec → Service (List SeededTrustedIssuer)
  seed_trusted_issuers [] = pure []
  seed_trusted_issuers (spec ∷ specs) = do
    key_pair ← generate
    trusted ← lift (
        trusted_issuer (record {
          issuer = spec.issuer;
          public_key_pem = key_pair.public_pem;
          algorithm = spec.algorithm;
          allowed_audiences = spec.audiences;
        }))
    on_issuers (Registry.save_issuer trusted)
    rest ← seed_trusted_issuers specs
    pure (
        record {
          issuer = spec.issuer;
          algorithm = spec.algorithm;
          audiences = spec.audiences;
          public_key_pem = key_pair.public_pem;
          private_key_pem = key_pair.private_pem;
        }
        ∷ rest)

  -- `SeedDemoDataService.execute`
  unfoldable pub seed_demo_data : Service SeedDemoDataResult
  seed_demo_data = do
    clients ← seed_clients demo_clients
    users ← seed_users demo_users
    trusted_issuers ← seed_trusted_issuers demo_trusted_issuers
    pure (record { clients = clients; users = users; trusted_issuers = trusted_issuers })
