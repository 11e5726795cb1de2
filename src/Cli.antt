-- ===== src/Cli.antt =====
-- cli.py: version filters, certifications, the certified level, and what is proved of them.
pub mod Certified
pub mod CertifiedLaws
pub mod Select
pub mod Certify
pub mod CertifyLaws
pub mod SelectLaws
pub mod ProgramLaws
mod Tests
