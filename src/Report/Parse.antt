-- ===== src/Report/Parse.antt =====
-- `AttestationReport`, `parse` and `read` of attestation_report.py. A byte string is a list of
-- numbers. `cpuid_note` and `version_note` hold what their messages are built from.
use sev_certify.Prelude.{
  ℕ, ◌+◌, ◌*◌, String, Bool, not, List, [], ◌∷◌, Option, none, some, Result, ok, err, ◌>>=◌, ◌==◌,
  leb, ltb, if◌then◌else◌, length, take, drop, get_or, any,
}
use sev_certify.Report.Tcb.{
  TcbVersion, ReportError, malformed, not_found, os_error, unsupported_version, foreign_cpu,
  from_bytes,
}
use sev_certify.Report.Generation.{Generation, resolve_generation, same_generation}
use sev_certify.Report.Off

abbrev pub report_size : ℕ
report_size = 1184

abbrev pub known_versions : List ℕ
known_versions = 2 ∷ 3 ∷ 5 ∷ []

pub record Cpuid : Type 0 where
  pub family : ℕ
  pub model : ℕ
  pub stepping : ℕ

pub data CpuidNote : Type 0 where
  decoded_from_host : Cpuid → String → CpuidNote
  left_undecoded : Cpuid → CpuidNote

pub record AttestationReport : Type 0 where
  pub version : ℕ
  pub guest_svn : ℕ
  pub policy : ℕ
  pub family_id : List ℕ
  pub image_id : List ℕ
  pub vmpl : ℕ
  pub report_data : List ℕ
  pub measurement : List ℕ
  pub host_data : List ℕ
  pub id_key_digest : List ℕ
  pub author_key_digest : List ℕ
  pub report_id : List ℕ
  pub reported_tcb : Option TcbVersion
  pub cpuid : Option Cpuid
  pub generation : String
  pub cpuid_note : Option CpuidNote
  pub version_note : Option ℕ
  pub launch_tcb : Option TcbVersion

unfoldable pub id_block_used : AttestationReport → Bool
id_block_used report = any (λ b. not (b == 0)) report.id_key_digest

-- `data[off:off + length]`.
unfoldable pub field : List ℕ → ℕ → ℕ → List ℕ
field bytes off len = take len (drop off bytes)

-- A little-endian number, as struct reads "<I" and "<Q".
unfoldable pub little_endian : List ℕ → ℕ
little_endian [] = 0
little_endian (b ∷ bs) = b + 256 * little_endian bs

unfoldable pub unpack : List ℕ → ℕ → ℕ → ℕ
unfolding field little_endian
unpack bytes off len = little_endian (field bytes off len)

unfoldable pub report_version : List ℕ → ℕ
unfolding unpack
report_version bytes = unpack bytes Off.version 4

-- The version gate: the note of a version that is newer than the validated ones, or a refusal.
unfoldable pub check_version : ℕ → Result ReportError (Option ℕ)
check_version version =
    if any (λ v. version == v) known_versions
    then ok none
    else if ltb version 2
    then err (unsupported_version version)
    else ok (some version)

unfoldable pub report_cpuid : ℕ → List ℕ → Option Cpuid
report_cpuid version bytes =
    if leb 3 version
    then some (record {
      family = get_or bytes Off.cpuid_fam 0;
      model = get_or bytes (Off.cpuid_fam + 1) 0;
      stepping = get_or bytes (Off.cpuid_fam + 2) 0;
    })
    else none

pub record Choice : Type 0 where
  pub generation : Option Generation
  pub note : Option CpuidNote

-- The cross-check of a report's CPUID against the host's generation.
unfoldable pub cross_check :
    Generation → Cpuid → Result ReportError Generation → Result ReportError Choice
cross_check host cpuid (err e) =
    ok (record { generation = some host; note = some (decoded_from_host cpuid host.name) })
cross_check host cpuid (ok report_gen) =
    if same_generation report_gen host
    then ok (record { generation = some host; note = none })
    else err (foreign_cpu report_gen.name host.name)

unfoldable pub from_report : Cpuid → Result ReportError Generation → Choice
from_report cpuid (ok generation) = record { generation = some generation; note = none }
from_report cpuid (err e) = record { generation = none; note = some (left_undecoded cpuid) }

-- Which generation decides the TCB layout.
unfoldable pub choose_generation : Option Generation → Option Cpuid → Result ReportError Choice
unfolding cross_check from_report
choose_generation (some host) (some cpuid) =
    cross_check host cpuid (resolve_generation cpuid.family cpuid.model)
choose_generation none (some cpuid) =
    ok (from_report cpuid (resolve_generation cpuid.family cpuid.model))
choose_generation generation none = ok (record { generation = generation; note = none })

pub record Tcbs : Type 0 where
  pub gen_name : String
  pub reported_tcb : Option TcbVersion
  pub launch_tcb : Option TcbVersion

unfoldable pub decode_launch : ℕ → Generation → List ℕ → Result ReportError (Option TcbVersion)
unfolding field
decode_launch version generation bytes =
    if leb 3 version
    then (from_bytes (field bytes Off.launch_tcb 8) generation.layout >>= λ t. ok (some t))
    else ok none

unfoldable pub decode_tcbs : ℕ → Option Generation → List ℕ → Result ReportError Tcbs
unfolding field decode_launch
decode_tcbs version none bytes =
    ok (record { gen_name = "unknown"; reported_tcb = none; launch_tcb = none })
decode_tcbs version (some generation) bytes = do
  reported ← from_bytes (field bytes Off.reported_tcb 8) generation.layout
  launch ← decode_launch version generation bytes
  ok (record { gen_name = generation.name; reported_tcb = some reported; launch_tcb = launch })

-- The record that the last statement of `parse` builds.
unfoldable pub build_report : List ℕ → Option ℕ → Choice → Tcbs → AttestationReport
unfolding field unpack report_version report_cpuid
build_report bytes version_note choice tcbs = record {
  version = report_version bytes;
  guest_svn = unpack bytes Off.guest_svn 4;
  policy = unpack bytes Off.policy 8;
  family_id = field bytes Off.family_id Off.len_id;
  image_id = field bytes Off.image_id Off.len_id;
  vmpl = unpack bytes Off.vmpl 4;
  report_data = field bytes Off.report_data Off.len_report_data;
  measurement = field bytes Off.measurement Off.len_measurement;
  host_data = field bytes Off.host_data Off.len_host_data;
  id_key_digest = field bytes Off.id_key_digest Off.len_digest;
  author_key_digest = field bytes Off.author_key_digest Off.len_digest;
  report_id = field bytes Off.report_id Off.len_report_id;
  reported_tcb = tcbs.reported_tcb;
  cpuid = report_cpuid (report_version bytes) bytes;
  generation = tcbs.gen_name;
  cpuid_note = choice.note;
  version_note = version_note;
  launch_tcb = tcbs.launch_tcb;
}

unfoldable pub parse_sized : List ℕ → Option Generation → Result ReportError AttestationReport
parse_sized bytes generation = do
  let version = report_version bytes
  version_note ← check_version version
  choice ← choose_generation generation (report_cpuid version bytes)
  tcbs ← decode_tcbs version choice.generation bytes
  ok (build_report bytes version_note choice tcbs)

unfoldable pub parse : List ℕ → Option Generation → Result ReportError AttestationReport
unfolding parse_sized
parse bytes generation =
    if length bytes == report_size
    then parse_sized bytes generation
    else err (malformed (length bytes))

-- What `read_bytes` finds: no file, one that another OSError keeps it from reading, or bytes.
pub data ReportFile : Type 0 where
  missing_file unreadable_file : ReportFile
  file_bytes : List ℕ → ReportFile

unfoldable pub read : ReportFile → Option Generation → Result ReportError AttestationReport
unfolding parse
read missing_file generation = err not_found
read unreadable_file generation = err os_error
read (file_bytes bytes) generation = parse bytes generation
