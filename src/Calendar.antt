-- ===== src/Calendar.antt =====
-- The parts of Go's package time that the billing code uses, in UTC.
mod Defs
mod Laws
mod Durations
unfoldable pub use Defs.*
pub use Laws.*
unfoldable pub use Durations.*
