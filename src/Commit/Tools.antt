-- ===== src/Commit/Tools.antt =====
-- snphost_config_commit.py: what the handlers run and raise, and how they read the TCB values of the host
-- and of a report.
use Prim.Native.String.{◌++◌}
use sev_certify.Prelude.{
  String, Bool, List, [], ◌∷◌, Option, none, some, Result, ok, err, and_then, if◌then◌else◌, ℕ, pos,
  eq_ℤ,
}
use sev_certify.Prelude.Texts.{strip}
use sev_certify.Prelude.Dicts.{Dict, get}
use sev_certify.Prelude.Quoting.{shell_join}
use sev_certify.Models.Definitions.{StepHandlerResult}
use sev_certify.Harness.World.{Exc, CompletedProcess}
use sev_certify.Commit.Sections.{parse_tcb_sections}

-- What a handler may raise: the RuntimeErrors of the module, a local name that has no value (NameError
-- and UnboundLocalError), and what `subprocess.run` raises.
pub data Raised : Type 0 where
  runtime_error name_error : String → Raised
  process_error : Exc → Raised

-- `subprocess.run(args, capture_output=True, text=True, timeout=timeout)`, the files, and the text of a
-- dictionary.
pub record Tools (W : Type 0) : Type 0 where
  pub run : (args : List String) → (timeout : ℕ) → W → Result Exc CompletedProcess × W
  pub exists : String → W → Bool
  pub mkdir : String → W → W
  pub repr : Dict String → String

abbrev pub succeeded : CompletedProcess → Bool
succeeded proc = eq_ℤ proc.returncode (pos 0)

-- `StepHandlerResult(...)`, without output that is not given.
abbrev pub failure : (stdout stderr : String) → Option String → StepHandlerResult
failure stdout stderr command = record {
  exit_code = pos 1;
  stdout = stdout;
  stderr = stderr;
  command = command;
}

abbrev pub success : (stdout : String) → (command : String) → StepHandlerResult
success stdout command = record {
  exit_code = pos 0;
  stdout = stdout;
  stderr = "";
  command = some command;
}

abbrev pub show_tcb : List String
show_tcb = "snphost" ∷ "show" ∷ "tcb" ∷ []

abbrev pub display_report : String → List String
display_report path = "snpguest" ∷ "display" ∷ "report" ∷ path ∷ []

-- The sections that the host's TCB and a report are required to have.
pub record HostTcb : Type 0 where
  pub reported : Dict String
  pub platform : Dict String

pub record ReportTcb : Type 0 where
  pub current : Dict String
  pub committed : Dict String
  pub reported : Dict String

abbrev no_section : (name source : String) → Raised
no_section name source =
    runtime_error ("no " ++ (name ++ (" TCB section in " ++ (source ++ " output"))))

unfoldable pub host_sections : Dict (Dict String) → Result Raised HostTcb
host_sections sections = elim (get "Reported" sections) [
  | none ↦ err (no_section "Reported" "snphost show tcb")
  | some reported ↦ elim (get "Platform" sections) [
    | none ↦ err (no_section "Platform" "snphost show tcb")
    | some platform ↦ ok (record { reported = reported; platform = platform })
  ]
]

unfoldable pub report_sections : Dict (Dict String) → Result Raised ReportTcb
report_sections sections = elim (get "Current" sections) [
  | none ↦ err (no_section "Current" "snpguest display report")
  | some current ↦ elim (get "Committed" sections) [
    | none ↦ err (no_section "Committed" "snpguest display report")
    | some committed ↦ elim (get "Reported" sections) [
      | none ↦ err (no_section "Reported" "snpguest display report")
      | some reported ↦
          ok (record { current = current; committed = committed; reported = reported })
    ]
  ]
]

-- What `_read_host_tcb` and `_parse_report_tcb_sections` make of the process.
unfoldable pub host_tcb_of : CompletedProcess → Result Raised HostTcb
unfolding host_sections
host_tcb_of proc =
    if succeeded proc
    then host_sections (parse_tcb_sections proc.stdout)
    else err (runtime_error ("snphost show tcb failed: " ++ strip proc.stderr))

unfoldable pub report_tcb_of : CompletedProcess → Result Raised ReportTcb
unfolding report_sections
report_tcb_of proc =
    if succeeded proc
    then report_sections (parse_tcb_sections proc.stdout)
    else err (runtime_error ("snpguest display report failed: " ++ strip proc.stderr))

-- `except RuntimeError`, where the handler of the exception reads a local name that has no value.
abbrev pub unbound_on_runtime : {A : Type 0} → String → Result Raised A → Result Raised A
unbound_on_runtime name (err (runtime_error message)) = err (name_error name)
unbound_on_runtime name result = result

module _ {W : Type 0} (tools : Tools W) where
  -- A process, and what it raises.
  abbrev pub run_tool : List String → ℕ → W → Result Raised CompletedProcess × W
  run_tool args timeout w =
      let (result, w1) = tools.run args timeout w in
      elim result [ ok proc ↦ (ok proc, w1) | err e ↦ (err (process_error e), w1) ]

  unfoldable pub read_host_tcb : W → Result Raised (HostTcb × String) × W
  unfolding host_tcb_of
  read_host_tcb w = and_then (run_tool show_tcb 10 w) λ proc w1. elim (host_tcb_of proc) [
    | ok tcb ↦ (ok (tcb, shell_join show_tcb), w1)
    | err e ↦ (err e, w1)
  ]

  unfoldable pub read_platform_tcb : W → Result Raised (Dict String) × W
  unfolding read_host_tcb
  read_platform_tcb w = and_then (read_host_tcb w) λ read w1. (ok read.0.platform, w1)

  unfoldable pub parse_report_tcb_sections : String → W → Result Raised (ReportTcb × String) × W
  unfolding report_tcb_of
  parse_report_tcb_sections path w = and_then (run_tool (display_report path) 10 w) λ proc w1.
      elim (report_tcb_of proc) [
        | ok tcb ↦ (ok (tcb, shell_join (display_report path)), w1)
        | err e ↦ (err e, w1)
      ]
