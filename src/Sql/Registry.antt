-- ===== src/Sql/Registry.antt =====
-- sqlalchemy/client_repository.py, user_repository.py and trusted_assertion_issuer_repository.py, with
-- their rows of orm/models.py
use oauth_lab.Prelude.{
  String, Option, none, some, List, [], ◌∷◌, map, Bool, not, ◌&&◌, ◌||◌, ◌==◌, words, sorted,
  if◌then◌else◌,
}
use oauth_lab.Flow.{Outcome, ok, raised, Flow, raise, gets, lift, modify, ◌>>=◌}
use oauth_lab.Domain.Errors.{
  and_then, Exception, integrity_error, value_error, unknown_grant, unknown_method,
}
use oauth_lab.Domain.Scope.{to_str, join_space}
use oauth_lab.Domain.Client.{
  Client, ClientId, ClientAuthMethod, GrantType, User, TrustedAssertionIssuer, Bytes, client_id,
  grant_type, grant_value, method_of, method_value, trusted_issuer,
}
use oauth_lab.Sql.{read_scopes, exists_where, select_where, update_where, insert_row, transaction}

pub record ClientRow : Type 0 where
  pub client_id : String
  pub secret_hash : Option Bytes
  pub token_endpoint_auth_method : String
  pub allowed_grant_types : String
  pub allowed_scopes : String
  pub redirect_uris : String
  pub default_audience : Option String

-- `GrantType(g)`, which raises
abbrev pub read_grant : String → Outcome Exception GrantType
read_grant s = elim (grant_type s) [ none ↦ raised (value_error (unknown_grant s)) | some g ↦ ok g ]

-- `ClientAuthMethod(s)`, which raises
abbrev pub read_method : String → Outcome Exception ClientAuthMethod
read_method s = elim (method_of s) [
  | none ↦ raised (value_error (unknown_method s))
  | some m ↦ ok m
]

-- `frozenset(GrantType(g) for g in texts)`
unfoldable pub read_grants : List String → Outcome Exception (List GrantType)
read_grants [] = ok []
read_grants (s ∷ ss) = and_then (read_grant s) (λ g. and_then (read_grants ss) (λ gs. ok (g ∷ gs)))

unfoldable pub client_of_row : ClientRow → Outcome Exception Client
client_of_row row = and_then (client_id row.client_id) (λ id.
    and_then (read_method row.token_endpoint_auth_method) (λ method.
      and_then (read_grants (words row.allowed_grant_types)) (λ grants.
        and_then (read_scopes row.allowed_scopes) (λ scopes. ok (record {
          id = id;
          secret_hash = row.secret_hash;
          token_endpoint_auth_method = method;
          allowed_grant_types = grants;
          allowed_scopes = scopes;
          redirect_uris = words row.redirect_uris;
          default_audience = row.default_audience;
        })))))

unfoldable pub client_row : Client → ClientRow
client_row client = record {
  client_id = client.id;
  secret_hash = client.secret_hash;
  token_endpoint_auth_method = method_value client.token_endpoint_auth_method;
  allowed_grant_types = join_space (sorted (map grant_value client.allowed_grant_types));
  allowed_scopes = to_str client.allowed_scopes;
  redirect_uris = join_space (sorted client.redirect_uris);
  default_audience = client.default_audience;
}

unfoldable pub update_client_row : Client → ClientRow → ClientRow
update_client_row client row = record row {
  secret_hash = client.secret_hash;
  token_endpoint_auth_method = method_value client.token_endpoint_auth_method;
  allowed_grant_types = join_space (sorted (map grant_value client.allowed_grant_types));
  allowed_scopes = to_str client.allowed_scopes;
  redirect_uris = join_space (sorted client.redirect_uris);
  default_audience = client.default_audience;
}

abbrev pub has_client_id : String → ClientRow → Bool
has_client_id id row = row.client_id == id

abbrev pub read_client : Option ClientRow → Outcome Exception (Option Client)
read_client none = ok none
read_client (some row) = and_then (client_of_row row) (λ client. ok (some client))

unfoldable pub find_by_id : ClientId → Flow (List ClientRow) Exception (Option Client)
find_by_id id = do row ← gets (select_where (has_client_id id)); lift (read_client row)

abbrev pub save_client_found : Client → Option ClientRow → Flow (List ClientRow) Exception Unit
save_client_found client none = insert_row (has_client_id client.id) (client_row client)
save_client_found client (some row) =
    modify (update_where (has_client_id client.id) (update_client_row client))

unfoldable pub save_client : Client → Flow (List ClientRow) Exception Unit
save_client client =
    transaction (do
      existing ← gets (select_where (has_client_id client.id))
      save_client_found client existing)

-- A row of `users` has the fields of a `User`, `_to_domain` and `_to_row` copy them.
abbrev pub has_sub : String → User → Bool
has_sub sub row = row.sub == sub

unfoldable pub find_by_sub : String → Flow (List User) Exception (Option User)
find_by_sub sub = gets (select_where (has_sub sub))

unfoldable pub find_by_username : String → Flow (List User) Exception (Option User)
find_by_username username = gets (select_where (λ row. row.username == username))

-- another row holds the username, which is unique
abbrev pub username_taken : User → User → Bool
username_taken user row = row.username == user.username && not (row.sub == user.sub)

abbrev pub update_user_row : User → User → User
update_user_row user row = record row {
  username = user.username;
  password_hash = user.password_hash;
  email = user.email;
}

abbrev pub save_user_found : User → Option User → Flow (List User) Exception Unit
save_user_found user none =
    insert_row (λ row. row.sub == user.sub || row.username == user.username) user
save_user_found user (some row) = do
  taken ← gets (exists_where (username_taken user))
  if taken
      then raise integrity_error
      else modify (update_where (has_sub user.sub) (update_user_row user))

unfoldable pub save_user : User → Flow (List User) Exception Unit
save_user user =
    transaction
      (do existing ← gets (select_where (has_sub user.sub)); save_user_found user existing)

pub record IssuerRow : Type 0 where
  pub issuer : String
  pub public_key_pem : Bytes
  pub algorithm : String
  pub allowed_audiences : String

unfoldable pub issuer_of_row : IssuerRow → Outcome Exception TrustedAssertionIssuer
issuer_of_row row = trusted_issuer (record {
  issuer = row.issuer;
  public_key_pem = row.public_key_pem;
  algorithm = row.algorithm;
  allowed_audiences = words row.allowed_audiences;
})

unfoldable pub issuer_row : TrustedAssertionIssuer → IssuerRow
issuer_row issuer = record {
  issuer = issuer.issuer;
  public_key_pem = issuer.public_key_pem;
  algorithm = issuer.algorithm;
  allowed_audiences = join_space (sorted issuer.allowed_audiences);
}

unfoldable pub update_issuer_row : TrustedAssertionIssuer → IssuerRow → IssuerRow
update_issuer_row issuer row = record row {
  public_key_pem = issuer.public_key_pem;
  algorithm = issuer.algorithm;
  allowed_audiences = join_space (sorted issuer.allowed_audiences);
}

abbrev pub has_issuer : String → IssuerRow → Bool
has_issuer iss row = row.issuer == iss

abbrev pub read_issuer : Option IssuerRow → Outcome Exception (Option TrustedAssertionIssuer)
read_issuer none = ok none
read_issuer (some row) = and_then (issuer_of_row row) (λ issuer. ok (some issuer))

unfoldable pub find_by_issuer :
    String → Flow (List IssuerRow) Exception (Option TrustedAssertionIssuer)
find_by_issuer iss = do row ← gets (select_where (has_issuer iss)); lift (read_issuer row)

abbrev pub save_issuer_found :
    TrustedAssertionIssuer → Option IssuerRow → Flow (List IssuerRow) Exception Unit
save_issuer_found issuer none = insert_row (has_issuer issuer.issuer) (issuer_row issuer)
save_issuer_found issuer (some row) =
    modify (update_where (has_issuer issuer.issuer) (update_issuer_row issuer))

unfoldable pub save_issuer : TrustedAssertionIssuer → Flow (List IssuerRow) Exception Unit
save_issuer issuer = transaction (do
  existing ← gets (select_where (has_issuer issuer.issuer))
  save_issuer_found issuer existing)
