-- ===== src/Commit.antt =====
-- snphost_config_commit.py: the TCB values of the host and of reports, and the gate before a commit.
pub mod Sections
pub mod LineLaws
pub mod SectionLaws
pub mod Fields
pub mod Tools
pub mod Verify
pub mod Gate
pub mod GateLaws
pub mod VerifyLaws
pub mod GuestLaws
mod Tests
