-- ===== src/Api.antt =====
-- The API handlers: inventory-watcher/internal/api/handler.go, on decoded requests.
pub mod Errors
pub mod Events
pub mod Quotas
pub mod Status
pub mod Wallets
mod Tests
