-- ===== src/Memory.antt =====
-- The in-memory repositories (oauth_lab/adapter/outbound/persistence/memory). Each method runs under
-- the store's `asyncio.Lock` and awaits nothing inside it, so a call is one step.
pub mod AuthorizationCodes
pub mod RefreshTokens
pub mod DeviceCodes
pub mod Registry
