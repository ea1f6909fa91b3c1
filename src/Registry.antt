-- ===== src/Registry.antt =====
-- mesh/registry.py: the event-sourced registry.
pub mod State
pub mod Compact
pub mod Ingest
pub mod Replay
pub mod Compaction
pub mod Preserved
pub mod OneBeat
pub mod Views
pub mod Snapshots
pub mod Trace
pub mod Keeps
pub mod Answers
pub mod Pins
pub mod Errors
pub mod Keys
pub mod Decode
pub mod Restorable
pub mod Restart
pub mod Ranked
pub mod Fresh
pub mod Samples
