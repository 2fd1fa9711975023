-- ===== src/Store.antt =====
-- The PostgreSQL store: inventory-watcher/internal/inventory/store.go. A table is the list of its
-- rows in the order of their insertion, and a function is the effect of its SQL when it succeeds.
mod Tests
mod Tables
mod Inventory
mod Metering
mod Quotas
pub mod Sums
pub mod Alive
pub mod Wallets
pub mod Events
unfoldable pub use Tables.*
unfoldable pub use Inventory.*
unfoldable pub use Metering.*
unfoldable pub use Quotas.*
unfoldable pub use Wallets.*
unfoldable pub use Events.*
