-- ===== src/Examples.antt =====
-- Concrete cases, runs and calls on which the theorems apply.
mod Data
mod Cases
mod Runs
mod Schedules
mod Dispatches
mod Workflow
mod Rows
mod Automations
mod Externals
mod Access
mod Snapshots
mod Deliveries
