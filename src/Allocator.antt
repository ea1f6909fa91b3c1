-- ===== src/Allocator.antt =====
-- mesh/allocator.py: which specialists each node is told to host.
pub mod Score
pub mod Place
pub mod Tiers
pub mod Fits
pub mod Ranking
pub mod Sound
pub mod Each
pub mod Cover
pub mod Secondaries
pub mod Suggested
pub mod Recorded
pub mod Samples
