-- ===== src/ClientAuth/Pipeline.antt =====
-- What a client that the pipeline lets through has shown.
use oauth_lab.Prelude.{
  String, Option, none, some, List, [], ◌∷◌, true, false, ◌≡◌, arith, Bool-cases, inl, inr,
}
use oauth_lab.Flow.{ok, raised}
use oauth_lab.Dict
use oauth_lab.Memory.Registry.{find_by_id}
use oauth_lab.Domain.Client.{
  Bytes, Client, ClientAuthMethod, client_secret_basic, client_secret_post, client_id, method_eq,
  no_auth,
}
use oauth_lab.ClientAuth.{
  ClientCredentials, AuthenticatedClient, Authenticator, basic, post, none_method, authenticate,
  authenticate_with, can_handle, find_configured, verify_secret, method,
}
use oauth_lab.ClientAuth.Basic.{Decoder, decode_basic}
use oauth_lab.World.{World, services}
use oauth_lab.World.Env.{Env}

method_eq_sound : (a b : ClientAuthMethod) → method_eq a b ≡ true → a ≡ b
method_eq_sound client_secret_basic b h = ground arith
method_eq_sound _ b h = ground arith

-- the client id and the secret that the credentials carry for a strategy
abbrev pub presented : Decoder → Authenticator → ClientCredentials → Option (String × Option String)
presented d basic creds = elim creds.basic_auth_header [
  | none ↦ none
  | some header ↦ elim (decode_basic d header) [ raised e ↦ none | ok (id, s) ↦ some (id, some s) ]
]
presented d post creds = elim creds.form_client_id [
  | none ↦ none
  | some id ↦ elim creds.form_client_secret [ none ↦ none | some s ↦ some (id, some s) ]
]
presented d none_method creds = elim creds.form_client_id [
  | none ↦ none
  | some id ↦ some (id, none)
]

-- a secret that was presented verifies against the stored hash
abbrev pub IsProven : Env → Client → Option String → Type 0
IsProven env c none = c.token_endpoint_auth_method ≡ no_auth
IsProven env c (some s) =
    (elim c.secret_hash [ none ↦ false | some hash ↦ env.verify_secret hash s ]) ≡ true

-- the credentials identify the stored client and prove that they speak for it
abbrev pub Vouches : Env → World → Option (String × Option String) → Client → Type 0
Vouches env w none c = ⊥
Vouches env w (some (id, secret)) c = (Dict.get w.clients id ≡ some c) × IsProven env c secret

pub record Cleared (env : Env) (d : Decoder) (creds : ClientCredentials) (w : World)
    (a : AuthenticatedClient) : Type 0 where
  pub by_strategy : Authenticator
  pub handles : can_handle by_strategy creds ≡ true
  pub vouched : Vouches env w (presented d by_strategy creds) a.client
  pub registered : a.client.token_endpoint_auth_method ≡ method by_strategy
  pub recorded : a.auth_method ≡ method by_strategy

module _ (env : Env) (decoder : Decoder) where
  find_configured_ok :
      (auth : Authenticator) (id refusal : String) (w : World) {c : Client} {w' : World}
      → find_configured env decoder auth id refusal w ≡ (ok c, w')
      → (w' ≡ w) × (Dict.get w.clients id ≡ some c) × (c.token_endpoint_auth_method ≡ method auth)
  unfolding services find_configured find_by_id client_id
  find_configured_ok auth id refusal w {c} h =
      ground (arith, method_eq_sound c.token_endpoint_auth_method (method auth))

  verify_secret_ok :
      (c : Client) (secret : String) (w w' : World) {u : Unit {0}}
      → verify_secret env decoder c secret w ≡ (ok u, w')
      → (w' ≡ w)
        × (hash : Bytes) × (c.secret_hash ≡ some hash)
        × (env.verify_secret hash secret ≡ true)
  unfolding services verify_secret
  verify_secret_ok c secret w w' h = ground arith

  authenticate_with_ok :
      (auth : Authenticator) (creds : ClientCredentials) (w w' : World) {a : AuthenticatedClient}
      → authenticate_with env decoder auth creds w ≡ (ok a, w')
      → (w' ≡ w)
        × Vouches env w (presented decoder auth creds) a.client
        × (a.client.token_endpoint_auth_method ≡ method auth)
        × (a.auth_method ≡ method auth)
  unfolding services authenticate_with method find_configured verify_secret find_by_id client_id
  authenticate_with_ok basic creds w w' {a} h =
      ground (arith, method_eq_sound a.client.token_endpoint_auth_method client_secret_basic)
  authenticate_with_ok post creds w w' {a} h =
      ground (arith, method_eq_sound a.client.token_endpoint_auth_method client_secret_post)
  authenticate_with_ok none_method creds w w' {a} h =
      ground (arith, method_eq_sound a.client.token_endpoint_auth_method no_auth)

  -- A client comes out of the pipeline only if one of the strategies handles the credentials, they
  -- name the stored client, that client is registered for the strategy's method, and, unless that
  -- method is `none`, the secret in them verifies against the stored hash. Nothing is written.
  pub authenticate-Cleared :
      (auths : List Authenticator) (creds : ClientCredentials) (w w' : World)
      {a : AuthenticatedClient}
      → authenticate env decoder auths creds w ≡ (ok a, w')
      → (w' ≡ w) × Cleared env decoder creds w a
  unfolding services authenticate
  authenticate-Cleared [] creds w w' h = cc
  authenticate-Cleared (auth ∷ auths) creds w w' h = elim (Bool-cases (can_handle auth creds)) [
    | inl handles ↦
        let (same, vouched, registered, recorded) =
          authenticate_with_ok auth creds w w' (ground arith) in
        (
          same,
          record {
            by_strategy = auth;
            handles = handles;
            vouched = vouched;
            registered = registered;
            recorded = recorded;
          },
        )
    | inr other ↦ authenticate-Cleared auths creds w w' (ground arith)
  ]
