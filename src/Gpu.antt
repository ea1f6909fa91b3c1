-- ===== src/Gpu.antt =====
-- mesh/gpu: reservations of GPU memory, and the placement of workloads on nodes.
pub mod Reservations
pub mod Placement
pub mod Verdicts
pub mod Listing
pub mod Pruning
pub mod Choice
pub mod Samples
