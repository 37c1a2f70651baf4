-- ===== src/Service/Consent.antt =====
-- application/service/consent_service.py, with the types of application/port/inbound/consent_use_case.py
pub mod Issued
use oauth_lab.Prelude.{◌+◌, String, Option, none, Bool, not, ◌==◌, contains, if◌then◌else◌}
use oauth_lab.Flow.{Outcome, ok, raised, pure, lift, guard, or_raise, ◌>>=◌, ◌>>◌}
use oauth_lab.Domain.Errors.{Exception, failure, invalid_request, invalid_scope}
use oauth_lab.Domain.Scope.{ScopeSet, parse, is_empty, is_subset_of}
use oauth_lab.Domain.Pkce.{pkce_challenge}
use oauth_lab.Domain.Client.{Client, client_id, supports_grant, authorization_code}
use oauth_lab.Domain.DeviceCode.{seconds}
use oauth_lab.Memory.AuthorizationCodes
use oauth_lab.Memory.Registry
use oauth_lab.World.{Service, on_clients, on_auth_codes}
use oauth_lab.World.Env.{Env}
use oauth_lab.World.Issuers.{now, token_urlsafe}

pub record ConsentDecision : Type 0 where
  pub approved : Bool
  pub user_sub : String
  pub client_id : String
  pub redirect_uri : String
  pub scope : Option String
  pub state : Option String
  pub code_challenge : String
  pub code_challenge_method : String

pub data ConsentResult : Type 0 where
  -- redirect_uri, code, state
  granted : String → String → Option String → ConsentResult
  -- redirect_uri, description, state
  denied : String → String → Option String → ConsentResult

-- The scope that a form may ask for: all that is allowed where it names none. The use cases of
-- `/consent` and `/device_authorization` compute it alike, up to the text of the error.
unfoldable pub granted_scope : Option String → ScopeSet → String → Outcome Exception ScopeSet
granted_scope raw allowed description = elim (parse raw) [
  | raised e ↦ raised e
  | ok requested ↦
      if is_empty requested
      then ok allowed
      else if is_subset_of requested allowed
      then ok requested
      else raised (failure invalid_scope description)
]

module _ (env : Env) where
  -- the part after approval
  unfoldable pub grant_code : Client → ConsentDecision → Service ConsentResult
  grant_code client decision = do
    challenge ← lift (
        pkce_challenge decision.code_challenge
          (if decision.code_challenge_method == "" then "S256" else decision.code_challenge_method))
    scope ← lift (
        granted_scope decision.scope client.allowed_scopes
          "requested scope exceeds the client's allowed scopes")
    t ← now env
    value ← token_urlsafe env 32
    on_auth_codes (
        AuthorizationCodes.save (record {
          value = value;
          client_id = client.id;
          user_sub = decision.user_sub;
          redirect_uri = decision.redirect_uri;
          scope = scope;
          pkce_challenge = challenge;
          issued_at = t;
          expires_at = t + seconds env.code_ttl;
          consumed_at = none;
          nonce = none;
        }))
    pure (granted decision.redirect_uri value decision.state)

  -- `ConsentService.execute`
  unfoldable pub consent : ConsentDecision → Service ConsentResult
  consent decision = do
    key ← lift (client_id decision.client_id)
    found ← on_clients (Registry.find_by_id key)
    client ← or_raise found (failure invalid_request "unknown client_id")
    guard (contains client.redirect_uris decision.redirect_uri)
        (failure invalid_request "redirect_uri does not match a registered URI")
    guard (supports_grant client authorization_code)
        (failure invalid_request "client is not allowed to use authorization_code grant")
    if not decision.approved
        then pure
            (denied decision.redirect_uri "user denied the authorization request" decision.state)
        else grant_code client decision
