-- ===== src/Automation.antt =====
-- app/brain/workflow_automation.py: the dry run of a workflow rule on a case.
pub mod Rule
pub mod Simulate
pub mod Plans
pub mod Rerun
pub mod Simulated
