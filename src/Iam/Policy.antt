-- ===== src/Iam/Policy.antt =====
-- aws/service/iam/policy-evaluation.go and policy-iam-action.go: the model stands in `Types`,
-- `Evaluation` and `Action`, the proofs in the other modules.
pub mod Types
pub mod Evaluation
pub mod Decision
pub mod Order
pub mod Action
pub mod Context
pub mod Samples
mod Tests
