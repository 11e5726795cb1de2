-- ===== src/Plans.antt =====
-- The test modules of cert_tests: their step lists.
pub mod Plan
pub mod SnpOk
pub mod Attestation
pub mod KeyDerivation
pub mod IdBlock
pub mod ConfigCommit
pub mod ConfigCommitLaws
pub mod CommitOrder
pub mod Built
mod Tests
