-- ===== src/Rest.antt =====
-- The REST controllers (oauth_lab/adapter/inbound/rest).
pub mod Token
pub mod UserInfo
pub mod Device
pub mod Discovery
