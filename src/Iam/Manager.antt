-- ===== src/Iam/Manager.antt =====
-- aws/service/iam/policy-retrieval.go: the model stands in `Cache` and `Retriever`, the proofs in
-- the other modules.
pub mod Cache
pub mod Retriever
pub mod Lookup
pub mod Watch
pub mod Coherence
pub mod Changes
pub mod Moves
pub mod Handling
pub mod Delivery
pub mod Race
mod Tests
