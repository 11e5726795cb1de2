-- ===== src/Lib.antt =====
-- sev-certify: the SEV-SNP certification harness of sev_verify, and what its code guarantees.
--
-- The harness reads manifests, runs the tests of a certification step by step on the host and in a
-- guest that it launches, and derives a verdict and the highest certified level. Its parts here:
--
-- Prelude - numbers, lists, results and the string methods of Python (strip, split, partition, int).
-- Report - sev_verify/attestation_report.py. Off holds the offsets, Tcb the two byte layouts of a TCB
--   version, Generation the table of processor generations and the scan of /proc/cpuinfo, Parse the
--   parser. Encoding, Table, Known, Gate and Layouts hold the theorems.
-- Models - sev_verify/models.py. Step has `BaseStep` and its `__post_init__`, Factory the class
--   `Step`, Definitions the test and certification definitions and the results. Expected, Validity
--   and Levels hold the theorems.
-- Runner - `_check_expected_values` of sev_verify/runner.py.
-- Harness - the `run_*` functions of sev_verify/runner.py (Steps), `effective_vm_profile` (Profile)
--   and `execute_test` of sev_verify/cli.py (Loop: one step, by its kind; Run: the loop and the
--   cleanup). Reports, Outcome, Guests, NoLeak, Escapes, Contained and Returns hold the theorems.
-- Cli - the rest of sev_verify/cli.py: Select (version filters), Certify (`execute_certification` and
--   the order of work of `main`), Certified (`_highest_certified_level`). CertifyLaws,
--   CertifiedLaws and SelectLaws hold the theorems; ProgramLaws those of `main` over the `execute_test`
--   of Harness.
-- Channel - sev_verify/guest_vsock.py: Request (one request and its response), Wait (the loop that
--   waits for a guest), Files (files fetched as base64), over the sockets, the JSON codec and the
--   clock of Wire. Agent is the other end, vsock_exec.py of the guest's image. WaitLaws,
--   BootLaws and ReadLaws hold the theorems.
-- Launch - sev_verify/vm_profile.py: HostData, Validate and Command (QEMU's command line), Run (the
--   launch, over a record Machine, and the stop). HostDataLaws, ValidateLaws, CommandLaws
--   and RunLaws hold the theorems.
-- Commit - the handlers of cert_tests/c3_0/c3_0_0_1/snphost_config_commit.py: Sections (the parser of
--   TCB values), Fields (their comparison), Tools, Verify and Gate. LineLaws, SectionLaws,
--   VerifyLaws, GuestLaws and GateLaws hold the theorems.
-- IdBlock - sev_verify/cvm_props.py (Metadata, Measurement, Generate) and the handlers of
--   cert_tests/c3_0/c3_0_0_1/id_block_test.py (Fields, Negative). MeasurementLaws and FrameLaws hold
--   the theorems.
-- Plans - the step lists of the test modules under sev_verify/cert_tests; ConfigCommit has the choice
--   of the TCB component to lower, ConfigCommitLaws and CommitOrder its theorems.
-- Examples, and the module Tests of each part - runs on concrete inputs.
--
-- Exceptions are values: a function that may raise returns a `Result`, or an `Option` where there is
-- one exception only. The world outside the harness (processes, QEMU, the guest, files, the clock) is a
-- type `W` with a record `Host` of operations, each of which may change the world also when it raises;
-- what a theorem assumes of them stands in the records `Counts`, `IsClock` and `IsBooting`. A
-- handler of a test is such an operation too, for the harness; those of the TCB commit and of the ID
-- block are also modelled, each over a smaller record of what it calls. Times are whole milliseconds,
-- timeouts whole numbers. Loops are structural recursion on lists and texts, but for the wait for a
-- guest, which runs on fuel: one round more than the milliseconds of its timeout, which is enough since
-- a round that fails sleeps a millisecond at least. The digits of a number are computed on fuel, one
-- more than the number.
-- Byte strings are lists of numbers below 256, machine words are numbers with their width written out.
-- `int` reads ASCII digits only, and the classes of regular expressions are taken on ASCII.
--
-- Not modelled: what is printed and written to result files and logs, TOML and command-line parsing,
-- the import of test modules (a plan is an argument), time stamps, the texts of the errors of a profile,
-- of the metadata and of a measurement (arguments), the fractions of JSON, key generation, and the
-- handlers of key_derivation_test.py, attestation_test.py and snp_ok.py.
pub mod Prelude
pub mod Report
pub mod Models
pub mod Runner
pub mod Cli
pub mod Harness
pub mod Channel
pub mod Launch
pub mod Commit
pub mod IdBlock
pub mod Plans
pub mod Examples
