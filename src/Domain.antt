-- ===== src/Domain.antt =====
-- The domain layer (oauth_lab/domain): entities, value objects, errors and pure services.
pub mod Errors
pub mod Scope
pub mod Pkce
pub mod Client
pub mod AuthorizationCode
pub mod RefreshToken
pub mod DeviceCode
pub mod ScopeValidator
