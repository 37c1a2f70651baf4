-- ===== src/Domain/Client/Names.antt =====
-- The wire names of the grant types.
use oauth_lab.Prelude.{String, some, ◌≡◌, ◌↔◌, refl, arith, eq_iff, ap, ◌∙◌}
use oauth_lab.Domain.Client.{
  GrantType, authorization_code, client_credentials, refresh_token, device_code, jwt_bearer,
  token_exchange, grant_value, grant_type,
}

printed : (g : GrantType) → grant_type (grant_value g) ≡ some g
unfolding grant_type
printed authorization_code = refl
printed client_credentials = refl
printed refresh_token = refl
printed device_code = refl
printed jwt_bearer = refl
printed token_exchange = refl

parsed : (s : String) (g : GrantType) → grant_type s ≡ some g → s ≡ grant_value g
unfolding grant_type
parsed s g h = ground (
  arith,
  eq_iff (grant_value authorization_code) s,
  eq_iff (grant_value client_credentials) s,
  eq_iff (grant_value refresh_token) s,
  eq_iff (grant_value device_code) s,
  eq_iff (grant_value jwt_bearer) s,
  eq_iff (grant_value token_exchange) s,
)

-- A text names a grant type exactly when it is the value of that type.
pub grant_type_iff : (s : String) (g : GrantType) → (grant_type s ≡ some g) ↔ (s ≡ grant_value g)
grant_type_iff s g = (parsed s g, λ e. ap grant_type e ∙ printed g)
