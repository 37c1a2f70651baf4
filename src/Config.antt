-- ===== src/Config.antt =====
-- oauth_lab/config.py; what oauth_lab/container.py derives from the settings and refuses to start with;
-- and the guard of adapter/inbound/cli/seed_command.py.
pub mod Guards
use Prim.Native.String.{◌++◌}
use oauth_lab.Prelude.{
  ℕ, String, Option, none, some, List, [], ◌∷◌, Bool, not, ◌&&◌, ◌||◌, ◌==◌, nat_eq, contains,
  if◌then◌else◌,
}
use oauth_lab.Flow.{Outcome, ok, raised, pure, lift, ◌>>=◌, ◌>>◌}
use oauth_lab.Domain.Errors.{
  Exception, and_then, Message, around_repr, value_error, jwt_algorithm_refused,
  unknown_token_format, runtime_error,
}
use oauth_lab.ClientAuth.{Authenticator, basic, post, none_method}
use oauth_lab.Domain.Client.{
  Bytes, GrantType, authorization_code, client_credentials, refresh_token, device_code, jwt_bearer,
  token_exchange,
}
use oauth_lab.World.{Service}
use oauth_lab.World.Env as EnvModel
use oauth_lab.World.Env.{TokenFormat, opaque, jwt}
use oauth_lab.Service.SeedDemoData.{KeyPairPem, seed_demo_data}
use oauth_lab.Http.Texts.{starts_with, rstrip_by}

pub record Settings : Type 0 where
  pub issuer : String
  pub database_url : String
  pub allow_demo_seed : Bool
  pub access_token_ttl_seconds : ℕ
  pub refresh_token_ttl_seconds : ℕ
  pub authorization_code_ttl_seconds : ℕ
  pub device_code_ttl_seconds : ℕ
  pub device_code_polling_interval_seconds : ℕ
  pub session_ttl_seconds : ℕ
  pub session_secret_key : String
  pub token_format : String
  pub jwt_algorithm : String

-- the settings of an environment that sets none
abbrev pub default_settings : Settings
default_settings = record {
  issuer = "http://localhost:8000";
  database_url = "memory://";
  allow_demo_seed = Bool.false;
  access_token_ttl_seconds = 3600;
  refresh_token_ttl_seconds = 2592000;
  authorization_code_ttl_seconds = 60;
  device_code_ttl_seconds = 1800;
  device_code_polling_interval_seconds = 5;
  session_ttl_seconds = 3600;
  session_secret_key = "dev-only-change-me";
  token_format = "jwt";
  jwt_algorithm = "RS256";
}

abbrev pub allowed_jwt_algorithms : List String
allowed_jwt_algorithms =
    "RS256" ∷ "RS384" ∷ "RS512" ∷ "ES256" ∷ "ES384" ∷ "ES512" ∷ "PS256" ∷ "PS384" ∷ "PS512" ∷ []

unfoldable pub validate_jwt_algorithm : String → Outcome Exception String
unfolding contains
validate_jwt_algorithm value =
    if not (contains allowed_jwt_algorithms value)
    then raised (value_error (jwt_algorithm_refused value))
    else ok value

abbrev pub dev_session_secret : String
dev_session_secret = "dev-only-change-me"

unfoldable pub is_localhost_issuer : String → Bool
unfolding starts_with
is_localhost_issuer issuer =
    starts_with issuer "http://localhost" || starts_with issuer "http://127.0.0.1"

unfoldable pub check_session_secret : Settings → Outcome Exception (Unit {0})
check_session_secret settings =
    if not (settings.session_secret_key == dev_session_secret)
    then ok tt
    else if is_localhost_issuer settings.issuer
    then ok tt
    else raised runtime_error

-- `TokenFormat(s)`
unfoldable pub read_token_format : String → Outcome Exception TokenFormat
read_token_format s =
    if s == "opaque"
    then ok opaque
    else if s == "jwt"
    then ok jwt
    else raised (value_error (unknown_token_format s))

-- Which repositories are built.
pub data Repositories : Type 0 where
  in_memory sqlite postgres : Repositories

-- the head of the migrations is the revision of the database, if it has one
unfoldable pub verify_schema_at_head : String → Option String → Outcome Exception (Unit {0})
verify_schema_at_head head none = raised runtime_error
verify_schema_at_head head (some current) = if current == head then ok tt else raised runtime_error

abbrev pub sql_repositories : String → Outcome Exception (Unit {0}) → Outcome Exception Repositories
sql_repositories url (raised e) = raised e
sql_repositories url (ok _) =
    if starts_with url "sqlite"
    then ok sqlite
    else if starts_with url "postgresql"
    then ok postgres
    else raised runtime_error

-- `_build_repositories`, with no override
unfoldable pub build_repositories :
    String → Option String → Settings → Outcome Exception Repositories
unfolding starts_with verify_schema_at_head
build_repositories head current settings =
    if starts_with settings.database_url "memory://"
    then ok in_memory
    else sql_repositories settings.database_url (verify_schema_at_head head current)

-- the constructor arguments of the services
unfoldable pub service_settings : Settings → TokenFormat → EnvModel.Settings
unfolding rstrip_by
service_settings settings format = record {
  issuer = settings.issuer;
  access_token_ttl = settings.access_token_ttl_seconds;
  refresh_token_ttl = settings.refresh_token_ttl_seconds;
  code_ttl = settings.authorization_code_ttl_seconds;
  device_code_ttl = settings.device_code_ttl_seconds;
  polling_interval = settings.device_code_polling_interval_seconds;
  verification_uri = rstrip_by (nat_eq b'/') settings.issuer ++ "/device";
  expected_audience = rstrip_by (nat_eq b'/') settings.issuer ++ "/token";
  token_format = format;
}

-- the strategies that are registered, in their order
abbrev pub registered_grants : List GrantType
registered_grants =
    client_credentials ∷ authorization_code ∷ refresh_token ∷ device_code ∷ jwt_bearer
    ∷ token_exchange ∷ []

abbrev pub registered_authenticators : List Authenticator
registered_authenticators = basic ∷ post ∷ none_method ∷ []

abbrev pub scopes_supported : List String
scopes_supported = "openid" ∷ "profile" ∷ "email" ∷ "read" ∷ "write" ∷ []

-- `_demo_seed_refusal`
unfoldable pub demo_seed_refusal : Settings → Option Message
demo_seed_refusal settings =
    if is_localhost_issuer settings.issuer || settings.allow_demo_seed
    then none
    else some (
        around_repr "Refusing to seed demo data: the issuer (" settings.issuer
          ") is not localhost. Demo seeding inserts publicly-known credentials (demo-client/demo-secret, alice/alice-password) that are unsafe in production — real deployments register their own clients and users. Set OAUTH_LAB_ALLOW_DEMO_SEED=true to override (e.g. a shared dev environment you intend to fill with demo data).")

-- what `build_container` refuses to start with
unfoldable pub build_container : String → Option String → Settings → Outcome Exception Repositories
unfolding check_session_secret build_repositories read_token_format
build_container head current settings = and_then (check_session_secret settings) (λ _.
    and_then (build_repositories head current settings)
      (λ repositories. and_then (read_token_format settings.token_format) (λ _. ok repositories)))

module _ (hash_at : ℕ → String → Bytes) (key_pair_at : ℕ → KeyPairPem) where
  -- the part of `_run` with a container: it seeds, and the exit code is 0
  unfoldable pub seed : Service ℕ
  seed = do seed_demo_data hash_at key_pair_at; pure 0

  abbrev pub run_unless : Outcome Exception Repositories → Option Message → Service ℕ
  run_unless container (some refusal) = pure 1
  run_unless container none = do lift container; seed

  -- `_run` of the command `seed`, over the repositories of the container
  unfoldable pub run : String → Option String → Settings → Service ℕ
  unfolding demo_seed_refusal build_container
  run head current settings =
      run_unless (build_container head current settings) (demo_seed_refusal settings)
