-- ===== src/Cases.antt =====
-- app/brain/operational_cases.py: the operational cases, their lifecycle and their stores.
pub mod Status
pub mod Record
pub mod Validators
pub mod Unique
pub mod Detection
pub mod Store
pub mod Upsert
pub mod Changes
pub mod Mutations
pub mod Validity
pub mod InMemory
pub mod Listing
pub mod Built
pub mod Timeline
pub mod Same
pub mod Lifecycle
pub mod History
pub mod Opening
pub mod Progress
pub mod Moves
pub mod Calls
