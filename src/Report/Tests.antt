-- ===== src/Report/Tests.antt =====
-- Runs of the report parser, and the theorems of its modules at inputs that meet their hypotheses.
use sev_certify.Prelude.{
  ℕ, ◌≡◌, refl, ◌≤◌, ◌+◌, ◌*◌, ◌/◌, ◌%◌, ◌^◌, ◌++◌, ◌⊎◌, String, List, [], ◌∷◌, none, some, ok, err,
  ◌>>=◌, replicate, arith, length, pos, Each, true,
}
use sev_certify.Report.Tcb.{TcbVersion, legacy, turin, from_bytes, to_u64, foreign_cpu}
use sev_certify.Report.Generation.{
  Generation, covers, supported_generations, Cpu, read_lines, host_generation, resolve_generation,
}
use sev_certify.Report.Parse.{
  AttestationReport, parse, check_version, choose_generation, decode_tcbs, build_report,
  report_version, report_cpuid, report_size,
}
use sev_certify.Report.Encoding.{to_u64-from_bytes, from_bytes-to_u64, bytes_of_u64}
use sev_certify.Report.Table.{read_lines-append, resolve_generation-covers}
use sev_certify.Report.Layouts.{
  parse-DecodedAs, parse-HasAbiSizes, Source, DecodedAs, Undecoded, HasAbiSizes, VersionNoted,
}

abbrev turin_tcb : TcbVersion
turin_tcb = record { bootloader = 1; tee = 2; snp = 3; microcode = 75; fmc = some 4 }

to_u64-from_bytes_example :
    (to_u64 turin_tcb turin >>= λ n. from_bytes (bytes_of_u64 n) turin) ≡ ok turin_tcb
to_u64-from_bytes_example = to_u64-from_bytes turin turin_tcb (omega arith)

from_bytes-to_u64_example :
    ((from_bytes (bytes_of_u64 0x4b00_0000_0302_0104) legacy >>= λ t. to_u64 t legacy)
      ≡ ok (0x4b00_0000_0302_0104 % 2 ^ 16 + 0x4b00_0000_0302_0104 / 2 ^ 48 * 2 ^ 48))
    × ((from_bytes (bytes_of_u64 0x4b00_0000_0302_0104) turin >>= λ t. to_u64 t turin)
        ≡ ok (0x4b00_0000_0302_0104 % 2 ^ 32 + 0x4b00_0000_0302_0104 / 2 ^ 56 * 2 ^ 56))
from_bytes-to_u64_example = from_bytes-to_u64 0x4b00_0000_0302_0104 (omega arith)

-- /proc/cpuinfo of a two-core Turin.
abbrev cpuinfo : List String
cpuinfo = "processor\t: 0\n" ∷ "cpu family\t: 26\n" ∷ "model\t\t: 2\n" ∷ []

abbrev turin_cpu : Cpu
turin_cpu = record { family = some (pos 26); model = some (pos 2) }

read_cpuinfo : read_lines (record { family = none; model = none }) cpuinfo ≡ ok turin_cpu
unfolding read_lines
read_cpuinfo = refl

read_lines-append_example :
    read_lines (record { family = none; model = none }) (cpuinfo ++ "model\t\t: x\n" ∷ [])
    ≡ ok turin_cpu
read_lines-append_example =
    read_lines-append (record { family = none; model = none }) cpuinfo ("model\t\t: x\n" ∷ [])
      turin_cpu read_cpuinfo (λ e. cc) (λ e. cc)

-- A version 5 report of a Turin, and one that says it is of version 1.
abbrev report_of : ℕ → List ℕ
report_of version =
    (version ∷ 0 ∷ 0 ∷ 0 ∷ [])
    ++ (replicate 380 7
        ++ ((4 ∷ 1 ∷ 2 ∷ 3 ∷ 0 ∷ 0 ∷ 0 ∷ 75 ∷ [])
            ++ ((0x1A ∷ 2 ∷ 1 ∷ [])
                ++ (replicate 101 0
                    ++ ((4 ∷ 1 ∷ 2 ∷ 3 ∷ 0 ∷ 0 ∷ 0 ∷ 70 ∷ []) ++ replicate 680 0)))))

report_v5 : List ℕ
report_v5 = report_of 5

report_v1 : List ℕ
report_v1 = report_of 1

abbrev turin_host : Generation
turin_host = record { name = "Turin"; layout = turin }

abbrev milan_host : Generation
milan_host = record { name = "Milan"; layout = legacy }

report_v5_sized : (length report_v5 ≡ report_size) × (2 ≤ report_version report_v5)
unfolding report_v5 report_version
report_v5_sized = (refl, omega arith)

parser : Unit {0}
unfolding parse check_version choose_generation resolve_generation decode_tcbs build_report
parser = tt

report_v5_foreign : parse report_v5 (some milan_host) ≡ err (foreign_cpu "Turin" "Milan")
unfolding report_v5 parser
report_v5_foreign = refl

abbrev launched_tcb : TcbVersion
launched_tcb = record turin_tcb { microcode = 70 }

parsed_v5 : AttestationReport
parsed_v5 =
    build_report report_v5 none (record { generation = some turin_host; note = none })
      (record { gen_name = "Turin"; reported_tcb = some turin_tcb; launch_tcb = some launched_tcb })

report_v5_parses : parse report_v5 (some turin_host) ≡ ok parsed_v5
unfolding report_v5 parser parsed_v5 from_bytes
report_v5_parses = refl

parse-DecodedAs_example :
    ((g : Generation) × Source
        (some turin_host)
        (report_cpuid (report_version report_v5) report_v5)
        g
      × DecodedAs report_v5 parsed_v5 g)
    ⊎ Undecoded (some turin_host) parsed_v5
parse-DecodedAs_example = parse-DecodedAs report_v5 (some turin_host) parsed_v5 report_v5_parses

parse-HasAbiSizes_example :
    (length report_v5 ≡ report_size) × HasAbiSizes parsed_v5 × VersionNoted parsed_v5
parse-HasAbiSizes_example = parse-HasAbiSizes report_v5 (some turin_host) parsed_v5 report_v5_parses

cpuinfo_resolves : host_generation (some cpuinfo) ≡ ok turin_host
unfolding host_generation resolve_generation
cpuinfo_resolves = refl

resolve_generation-covers_example :
    Each
      (λ r. covers r 0x19 0x11 ≡ true → resolve_generation 0x19 0x11 ≡ ok r.generation)
      supported_generations
resolve_generation-covers_example = resolve_generation-covers 0x19 0x11
