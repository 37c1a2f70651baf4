-- ===== src/Service.antt =====
-- The use cases (application/service).
pub mod IssueToken
pub mod Authorize
pub mod Consent
pub mod Device
pub mod Session
pub mod DemoData
pub mod SeedDemoData
