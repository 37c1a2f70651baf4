-- ===== src/World/Issuers.antt =====
-- adapter/outbound/crypto: opaque_token_issuer.py, jwt_token_issuer.py, id_token_issuer.py and the
-- choice of token_issuer_factory.py; the clock and the random source that they share.
use oauth_lab.Prelude.{ℕ, ◌+◌, ◌/◌, String, Option, none, some, ◌==◌, if◌then◌else◌}
use oauth_lab.Flow.{pure, ◌>>=◌}
use oauth_lab.Domain.Scope.{ScopeSet, is_empty, to_str}
use oauth_lab.Domain.DeviceCode.{seconds}
use oauth_lab.World.{Service}
use oauth_lab.World.Env.{Env, TokenFormat, opaque, jwt}

-- `audience if audience else self._issuer`
abbrev pub or_default : Option String → String → String
or_default none d = d
or_default (some s) d = if s == "" then d else s

-- `int(t.timestamp())`
abbrev pub timestamp : ℕ → ℕ
timestamp t = t / 1000000

pub record IssuedToken : Type 0 where
  pub value : String
  pub expires_in_seconds : ℕ

-- the keyword arguments of `TokenIssuer.issue`
pub record TokenOrder : Type 0 where
  pub subject : String
  pub client_id : String
  pub scope : ScopeSet
  pub audience : Option String
  pub ttl_seconds : ℕ

module _ (env : Env) where
  -- `clock.now()`
  unfoldable pub now : Service ℕ
  now w = pure (env.now_at w.reads) (record w { reads = w.reads + 1 })

  -- `random_source.token_urlsafe(n_bytes)`
  unfoldable pub token_urlsafe : ℕ → Service String
  token_urlsafe n_bytes w = pure (env.token_at w.draws n_bytes) (record w { draws = w.draws + 1 })

  unfoldable pub issue_opaque : TokenOrder → Service IssuedToken
  issue_opaque o = do
    value ← token_urlsafe 32
    pure (record { value = value; expires_in_seconds = o.ttl_seconds })

  unfoldable pub issue_jwt : TokenOrder → Service IssuedToken
  issue_jwt o = do
    t ← now
    jti ← token_urlsafe 16
    pure (record {
      value = env.encode_access (record {
        iss = env.issuer;
        sub = o.subject;
        client_id = o.client_id;
        iat = timestamp t;
        nbf = timestamp t;
        exp = timestamp (t + seconds o.ttl_seconds);
        jti = jti;
        aud = or_default o.audience env.issuer;
        scope = if is_empty o.scope then none else some (to_str o.scope);
      });
      expires_in_seconds = o.ttl_seconds;
    })

  abbrev pub issue_in : TokenFormat → TokenOrder → Service IssuedToken
  issue_in opaque o = issue_opaque o
  issue_in jwt o = issue_jwt o

  -- `TokenIssuerFactory.build().issue(...)`
  unfoldable pub issue : TokenOrder → Service IssuedToken
  issue o = issue_in env.token_format o

  -- `JwtIdTokenIssuer.issue`, with its default lifetime of 300 seconds
  unfoldable pub issue_id_token :
      (subject audience : String) (access_token nonce : Option String) (auth_time : Option ℕ)
      → Service String
  issue_id_token subject audience access_token nonce auth_time = do
    t ← now
    pure (
        env.encode_id (record {
          iss = env.issuer;
          sub = subject;
          aud = audience;
          iat = timestamp t;
          exp = timestamp (t + seconds 300);
          auth_time = elim auth_time [ none ↦ none | some a ↦ some (timestamp a) ];
          nonce = nonce;
          at_hash = elim access_token [ none ↦ none | some a ↦ some (env.at_hash a) ];
        }))
