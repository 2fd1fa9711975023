-- ===== src/Rating.antt =====
-- Rating: inventory-watcher/internal/rating/rating.go.
pub mod Tiers
mod Tests
pub mod Wallets
pub mod Index
pub mod Sweep
pub mod Thresholds
