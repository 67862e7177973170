-- ===== src/Cases/Calls.antt =====
-- The operations of a case store as calls, and what a client does as a list of calls.
pub mod Defs
pub mod Step
pub mod Invariant
pub mod Trace
