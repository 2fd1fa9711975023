-- ===== src/CustomMetrics.antt =====
-- Meters that the operator defines: inventory-watcher/internal/custommetrics/custommetrics.go.
pub mod Config
pub mod Extract
pub mod Registry
mod Tests
