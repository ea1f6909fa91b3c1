-- ===== src/Select.antt =====
-- mesh/select.py: which route serves a request.
pub mod Text
pub mod Route
pub mod Chosen
pub mod Pref
pub mod Weigh
pub mod Meets
pub mod Best
pub mod Preferred
pub mod Limits
pub mod Samples
