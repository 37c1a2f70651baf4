-- ===== src/Grant.antt =====
-- The grant strategies (application/service/grant).
pub mod AuthorizationCode
pub mod ClientCredentials
pub mod RefreshToken
pub mod DeviceCode
pub mod TokenExchange
pub mod JwtBearer
pub mod Scopes
