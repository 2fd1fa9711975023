-- ===== src/Billing.antt =====
-- Billing windows: inventory-watcher/internal/billing/period.go.
mod Duration
mod Period
mod Windows
pub mod Resolve
pub mod Label
mod Tests
unfoldable pub use Duration.*
unfoldable pub use Period.*
