-- ===== src/Iam.antt =====
-- aws/service/iam: policies, their evaluation, and the manager of policy templates.
pub mod StringLike
pub mod Policy
pub mod Manager
