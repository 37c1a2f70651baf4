-- ===== src/Token.antt =====
-- The contract of `/token`: `TokenRequest` and `TokenIssuanceResult` of
-- application/port/inbound/issue_token_use_case.py, and what several grants do alike.
pub mod Returned
use Prim.Native.String.{◌++◌}
use oauth_lab.Prelude.{ℕ, ◌+◌, String, Option, none, some, List, ◌==◌, if◌then◌else◌}
use oauth_lab.Flow.{pure, raise, guard, ◌>>=◌, ◌>>◌}
use oauth_lab.Domain.Errors.{Exception, failure, unauthorized_client}
use oauth_lab.Domain.Scope.{ScopeSet}
use oauth_lab.Domain.Client.{Client, GrantType, refresh_token, grant_value, supports_grant}
use oauth_lab.Domain.DeviceCode.{seconds}
use oauth_lab.Memory.RefreshTokens
use oauth_lab.World.{Service, on_refresh_tokens}
use oauth_lab.World.Env.{Env}
use oauth_lab.World.Issuers.{token_urlsafe}

pub record TokenRequest : Type 0 where
  pub grant_type : GrantType
  pub scope : ScopeSet
  pub audience : List String
  pub resource : List String
  pub code : Option String
  pub redirect_uri : Option String
  pub code_verifier : Option String
  pub refresh_token : Option String
  pub device_code : Option String
  pub assertion : Option String
  pub subject_token : Option String
  pub subject_token_type : Option String
  pub actor_token : Option String
  pub actor_token_type : Option String
  pub requested_token_type : Option String

pub record TokenIssuanceResult : Type 0 where
  pub access_token : String
  pub token_type : String
  pub expires_in : ℕ
  pub scope : Option ScopeSet
  pub refresh_token : Option String
  pub id_token : Option String
  pub issued_token_type : Option String

-- `if not s: raise e`, for a text that may be missing
unfoldable pub required : Option String → Exception → Service String
unfolding ◌>>=◌
required none e = raise e
required (some s) e = if s == "" then raise e else pure s

-- the first test of every grant
unfoldable pub require_grant : Client → GrantType → Service Unit
require_grant client g =
    guard (supports_grant client g)
      (failure unauthorized_client ("client is not allowed to use grant_type=" ++ grant_value g))

-- `xs[0] if xs else ...`
abbrev pub first_or : List String → Option String → Option String
first_or List.[] d = d
first_or (List.◌∷◌ x xs) d = some x

module _ (env : Env) where
  -- The refresh token that authorization_code_grant.py and device_code_grant.py mint beside the access
  -- token, in a new family, for a client that may refresh.
  unfoldable pub mint_refresh_token : Client → String → ScopeSet → ℕ → Service (Option String)
  mint_refresh_token client user_sub scope now =
      if supports_grant client refresh_token
      then (do
        value ← token_urlsafe env 32
        family_id ← token_urlsafe env 16
        on_refresh_tokens (
            RefreshTokens.save (record {
              value = value;
              family_id = family_id;
              client_id = client.id;
              user_sub = user_sub;
              scope = scope;
              issued_at = now;
              expires_at = now + seconds env.refresh_token_ttl;
              consumed_at = none;
            }))
        pure (some value))
      else pure none
