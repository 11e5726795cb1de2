-- ===== src/Runner.antt =====
-- runner.py: the check of a step's expected result. The other functions are in Harness.
pub mod Expected
