-- ===== src/Metering.antt =====
-- Metering: inventory-watcher/internal/metering/metering.go and billable.go. A duration is a
-- number of microseconds, which is the number of seconds in millionths.
mod States
mod Meters
mod Sweep
mod Tests
pub mod Uptime
pub mod Once
pub mod Final
unfoldable pub use States.*
unfoldable pub use Meters.*
unfoldable pub use Sweep.*
