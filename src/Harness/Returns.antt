-- ===== src/Harness/Returns.antt =====
-- How `execute_test` ends.
use sev_certify.Harness.Escapes.{Escapes, Contained}
