-- ===== src/Harness.antt =====
-- The run of a test: the `run_*` functions of runner.py and `execute_test` of cli.py.
pub mod Profile
pub mod World
pub mod Shell
pub mod Steps
pub mod Loop
pub mod Run
pub mod Reports
pub mod Outcome
pub mod Tests
pub mod Guests
pub mod NoLeak
pub mod Escapes
pub mod Contained
pub mod Returns
