-- ===== src/JobStore.antt =====
-- mesh/job_store.py: the durable table of the video jobs that the router owns.
pub mod Rows
pub mod Cleanup
pub mod Operations
pub mod Claiming
pub mod Tables
pub mod Twins
pub mod Rounds
pub mod Owners
pub mod Methods
pub mod Trace
pub mod Leases
pub mod Granting
pub mod Claims
pub mod Reads
pub mod Samples
