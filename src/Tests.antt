-- ===== src/Tests.antt =====
-- A server with one client, one user and a few stored codes and tokens, for the examples.
mod CodesTests
mod HistoryTests
mod RefreshTests
mod DeviceTests
mod ServicesTests
mod ScopesTests
mod SqlTests
mod HttpTests
mod AppTests
use oauth_lab.Prelude.{
  ℕ, ◌+◌, ◌*◌, String, Option, none, some, Bool, true, false, List, [], ◌∷◌, ◌==◌, ◌≡◌, contains,
  all, keep, sorted, str_len, matches_plus, split_by, words, nonempty, is_space,
}
use oauth_lab.Flow.{ok, raised}
use oauth_lab.Dict
use oauth_lab.Dict.{Dict}
use oauth_lab.Domain.Errors.{Exception}
use oauth_lab.Domain.Scope.{ScopeSet, no_scopes}
use oauth_lab.Domain.Scope as ScopeModel
use oauth_lab.Domain.ScopeValidator
use oauth_lab.Domain.Pkce
use oauth_lab.Domain.Pkce.{PkceChallenge}
use oauth_lab.Domain.Client as ClientModel
use oauth_lab.Domain.Client.{
  Client, GrantType, User, authorization_code, client_credentials, refresh_token, device_code,
  jwt_bearer, token_exchange, client_secret_post, TrustedAssertionIssuer, grant_types,
}
use oauth_lab.Domain.AuthorizationCode as CodeModel
use oauth_lab.Domain.AuthorizationCode.{AuthorizationCode}
use oauth_lab.Domain.RefreshToken as TokenModel
use oauth_lab.Domain.RefreshToken.{RefreshToken}
use oauth_lab.Domain.DeviceCode as DeviceModel
use oauth_lab.Domain.DeviceCode.{DeviceCode}
use oauth_lab.Memory.AuthorizationCodes
use oauth_lab.Memory.RefreshTokens
use oauth_lab.Memory.DeviceCodes
use oauth_lab.Memory.Registry
use oauth_lab.World.{World, services}
use oauth_lab.World.Env.{Env, jwt, Payload, SessionPayload}
use oauth_lab.World.Issuers
use oauth_lab.ClientAuth
use oauth_lab.ClientAuth.{ClientCredentials, Authenticator, basic, post, none_method}
use oauth_lab.ClientAuth.Basic.{Decoder}
use oauth_lab.Token
use oauth_lab.Token.{TokenRequest, TokenIssuanceResult}
use oauth_lab.Jwt
use oauth_lab.Grant.AuthorizationCode as Code
use oauth_lab.Grant.ClientCredentials
use oauth_lab.Grant.RefreshToken as Refresh
use oauth_lab.Grant.DeviceCode as Device
use oauth_lab.Grant.TokenExchange
use oauth_lab.Grant.JwtBearer
use oauth_lab.Service.IssueToken
use oauth_lab.Service.Authorize
use oauth_lab.Service.Consent
use oauth_lab.Service.Device as Pages
use oauth_lab.Service.Session

-- To unfold `program` is to unfold what the examples run.
unfoldable program : Unit {0}
unfolding services Dict.get Dict.put contains all keep str_len matches_plus split_by words nonempty
    is_space ClientModel.uri_value ScopeModel.is_scope_char ScopeModel.scope ScopeModel.scopes_of
    ScopeModel.parse ScopeModel.intersect ScopeModel.is_subset_of ScopeValidator.grantable
    Pkce.is_unreserved Pkce.pkce_challenge Pkce.is_valid_code_verifier Pkce.verify
    ClientModel.client_id ClientModel.grant_value ClientModel.grant_type ClientModel.supports_grant
    CodeModel.is_expired CodeModel.is_consumed CodeModel.consume TokenModel.is_expired
    TokenModel.is_consumed TokenModel.consume DeviceModel.is_expired DeviceModel.is_pending
    DeviceModel.is_approved DeviceModel.is_denied DeviceModel.is_redeemed DeviceModel.can_poll_at
    DeviceModel.mark_polled DeviceModel.redeem AuthorizationCodes.consume AuthorizationCodes.save
    RefreshTokens.save RefreshTokens.find_by_value RefreshTokens.rotate DeviceCodes.save
    DeviceCodes.redeem DeviceCodes.is_redeemable DeviceCodes.find_by_device_code
    DeviceCodes.find_by_user_code Registry.find_by_id Registry.find_by_sub Registry.find_by_issuer
    Issuers.now Issuers.token_urlsafe Issuers.issue Issuers.issue_opaque Issuers.issue_jwt
    Issuers.issue_id_token ClientAuth.method ClientAuth.can_handle ClientAuth.verify_secret
    ClientAuth.find_configured ClientAuth.authenticate_with ClientAuth.authenticate Token.required
    Token.require_grant Token.mint_refresh_token Jwt.decode Jwt.validate Jwt.verify_assertion
    Code.check_code Code.mint_id_token Code.mint_tokens Code.execute ClientCredentials.execute
    Refresh.narrow Refresh.exchange Refresh.present Refresh.execute Device.mint_tokens Device.poll
    Device.execute TokenExchange.derive_scope TokenExchange.derive_audience TokenExchange.execute
    JwtBearer.check_assertion JwtBearer.execute IssueToken.registered IssueToken.resolve
    IssueToken.run_grant IssueToken.issue_token Authorize.validate_scope Authorize.validate_request
    Authorize.ask_user Authorize.authorize Consent.granted_scope Consent.grant_code Consent.consent
    Pages.decide Pages.device_consent Session.verify_session
program = tt

abbrev verifier_text : String
verifier_text = "abcdefghijklmnopqrstuvwxyz0123456789ABCDEFG"

abbrev read_scope : ScopeSet
read_scope = record { scopes = "read" ∷ [] }

abbrev payload : Payload
payload = record {
  iss = some "issuer";
  sub = some "user-1";
  client_id = none;
  scope = some "read";
  aud = some [];
  exp = some 9;
  nbf = none;
  iat = none;
  jti = none;
}

-- every draw gives "t", and a secret is right when it is "secret"
abbrev env : Env
env = record {
  settings = record {
    issuer = "https://as";
    access_token_ttl = 600;
    refresh_token_ttl = 3600;
    code_ttl = 60;
    device_code_ttl = 600;
    polling_interval = 5;
    verification_uri = "https://as/device";
    expected_audience = "https://as";
    token_format = jwt;
  };
  public_key_pem = [];
  algorithm = "RS256";
  now_at = λ n. 1000 + n;
  token_at = λ n k. "t";
  s256 = λ s. s;
  at_hash = λ s. s;
  encode_access = λ c. "access";
  encode_id = λ c. "id";
  decode = λ n o s. ok payload;
  decode_unverified = λ s. ok payload;
  verify_secret = λ hash s. s == "secret";
  load_session = λ n s. some (record { sub = some "user-1"; csrf = some "csrf" });
  sign_session = λ sub csrf. "cookie";
  below_at = λ n k. 0;
}

abbrev decoder : Decoder
decoder = record { b64_utf8 = λ s. none; unquote = λ s. s }

abbrev client : Client
client = record {
  id = "app";
  secret_hash = some [];
  token_endpoint_auth_method = client_secret_post;
  allowed_grant_types = grant_types;
  allowed_scopes = record { scopes = "read" ∷ "write" ∷ [] };
  redirect_uris = "https://app/cb" ∷ [];
  default_audience = none;
}

abbrev challenge : PkceChallenge
challenge = record { value = verifier_text; method = "S256" }

abbrev code : AuthorizationCode
code = record {
  value = "c1";
  client_id = "app";
  user_sub = "user-1";
  redirect_uri = "https://app/cb";
  scope = read_scope;
  pkce_challenge = challenge;
  issued_at = 900;
  expires_at = 2000;
  consumed_at = none;
  nonce = none;
}

abbrev old_token : RefreshToken
old_token = record {
  value = "r0";
  family_id = "f1";
  client_id = "app";
  user_sub = "user-1";
  scope = read_scope;
  issued_at = 100;
  expires_at = 5000;
  consumed_at = some 500;
}

abbrev live_token : RefreshToken
live_token = record old_token { value = "r1"; consumed_at = none }

abbrev approved_code : DeviceCode
approved_code = record {
  device_code = "d1";
  user_code = "BCDF-GHJK";
  client_id = "app";
  scope = read_scope;
  issued_at = 900;
  expires_at = 2000;
  interval = 0;
  last_polled_at = none;
  user_sub = some "user-1";
  denied = false;
  redeemed_at = none;
}

abbrev pending_code : DeviceCode
pending_code = record approved_code { device_code = "d2"; user_code = "XXXX-XXXX"; user_sub = none }

abbrev user : User
user = record { sub = "user-1"; username = "ann"; password_hash = []; email = none }

abbrev trusted : TrustedAssertionIssuer
trusted = record {
  issuer = "issuer";
  public_key_pem = [];
  algorithm = "RS256";
  allowed_audiences = [];
}

abbrev world : World
world = record {
  clients = ("app", client) ∷ [];
  users = ("user-1", user) ∷ [];
  trusted_issuers = ("issuer", trusted) ∷ [];
  auth_codes = ("c1", code) ∷ [];
  refresh_tokens = ("r0", old_token) ∷ ("r1", live_token) ∷ [];
  device_codes = record {
    by_device_code = ("d1", approved_code) ∷ ("d2", pending_code) ∷ [];
    by_user_code = ("BCDF-GHJK", "d1") ∷ ("XXXX-XXXX", "d2") ∷ [];
  };
  reads = 0;
  draws = 0;
}

-- a request that carries what any of the grants asks for
abbrev request_for : GrantType → TokenRequest
request_for g = record {
  grant_type = g;
  scope = no_scopes;
  audience = [];
  resource = [];
  code = some "c1";
  redirect_uri = some "https://app/cb";
  code_verifier = some verifier_text;
  refresh_token = some "r1";
  device_code = some "d1";
  assertion = some "assertion";
  subject_token = some "subject";
  subject_token_type = some "urn:ietf:params:oauth:token-type:access_token";
  actor_token = none;
  actor_token_type = none;
  requested_token_type = none;
}

abbrev answer : TokenIssuanceResult
answer = record {
  access_token = "access";
  token_type = "Bearer";
  expires_in = 600;
  scope = some read_scope;
  refresh_token = some "t";
  id_token = none;
  issued_token_type = none;
}
