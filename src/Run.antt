-- ===== src/Run.antt =====
-- app/brain/run_ledger.py: the history of report runs, its records and its mutations.
pub mod Metadata
pub mod Record
pub mod Kept
pub mod Ledger
pub mod Evolution
pub mod Revalidated
pub mod Invariant
pub mod Appends
pub mod History
pub mod Trace
pub mod InMemory
