-- ===== src/Router.antt =====
-- mesh/router_app.py: the router, from a request to the node that answers it.
pub mod Bindings
pub mod Request
pub mod Attempts
pub mod Chat
pub mod Cases
pub mod Settled
pub mod Forwarded
pub mod Counts
pub mod Accounts
pub mod Refresh
pub mod Discovered
pub mod Merged
pub mod Kept
pub mod Retained
pub mod Calls
pub mod Served
pub mod Samples
