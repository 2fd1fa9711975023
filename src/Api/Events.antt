-- ===== src/Api/Events.antt =====
-- Event ingestion: `IngestEvent`, `IngestEventBatch` and `ProcessKafkaEvent`, on requests that are
-- read and decoded up to the data of the events.
pub mod CloudEvents
pub mod Payloads
pub mod Validate
pub mod Resources
pub mod Inference
pub mod Process
pub mod Replay
pub mod Once
pub mod Recorded
mod Tests
