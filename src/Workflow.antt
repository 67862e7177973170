-- ===== src/Workflow.antt =====
-- The workflow modules: app/brain/workflow_action_ledger.py and the modules that use it.
pub mod Record
pub mod Ledger
pub mod Decision
pub mod Consistent
pub mod Keeps
pub mod Settles
pub mod Calls
pub mod Outcomes
pub mod Outcome
pub mod Final
pub mod Queues
pub mod Awaiting
pub mod Exact
pub mod Handover
pub mod Sqlite
pub mod Mirror
pub mod Mirrored
pub mod Updates
pub mod Rows
pub mod Mirrors
pub mod Mirroring
pub mod Durable
