-- ===== src/Report.antt =====
-- attestation_report.py: the layout tables, the parser, and what is proved of them in the children.
pub mod Off
pub mod Tcb
pub mod Generation
pub mod Parse
pub mod Bits
pub mod Encoding
pub mod Table
pub mod Known
pub mod Gate
pub mod Layouts
pub mod Tests
