-- ===== src/Clients.antt =====
-- persistence/oidc-client.repository.ts without a database.
pub mod Records
pub mod Queries
pub mod Registration
pub mod Revisions
pub mod Secrets
pub mod Lifecycle
pub mod Calls
pub mod Keyed
pub mod Disabling
pub mod Standing
pub mod Authorized
pub mod Quota
mod Tests
