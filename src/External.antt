-- ===== src/External.antt =====
-- app/brain/external_actions.py: the boundary behind which providers act for a business.
pub mod Request
pub mod Execute
pub mod Audit
pub mod Approval
pub mod Cleared
pub mod Guards
pub mod Marks
pub mod Once
