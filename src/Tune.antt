-- ===== src/Tune.antt =====
-- The package slancha-mesh-tune: when a node may train, which experiment is run, and what is promoted.
pub mod Idle
pub mod Quiet
pub mod Gate
pub mod Loop
pub mod Accept
pub mod Pick
pub mod Tick
pub mod Promotion
pub mod Breaker
pub mod Queue
pub mod Drain
pub mod Samples
