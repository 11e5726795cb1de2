-- ===== src/Report/Generation.antt =====
-- SUPPORTED_GENERATIONS, `resolve_generation` and `host_generation` of attestation_report.py.
use sev_certify.Prelude.{
  ℕ, String, Bool, true, false, ◌&&◌, List, [], ◌∷◌, Option, none, some, Result, ok, err, ◌>>=◌,
  ◌==◌, leb, ltb, if◌then◌else◌, str_eq, ℤ, pos,
}
use sev_certify.Prelude.Texts.{partition, strip, int}
use sev_certify.Report.Tcb.{
  Layout, legacy, turin, other_layout, ReportError, unknown_cpu, unreadable_cpuinfo,
  no_family_or_model, value_error,
}

-- The pair `(name, tcb_layout)`.
pub record Generation : Type 0 where
  pub name : String
  pub layout : Layout

-- A row of the table; `models` is `range(from, to)`.
pub record Row : Type 0 where
  pub family : ℕ
  pub from : ℕ
  pub to : ℕ
  pub generation : Generation

abbrev pub row : ℕ → ℕ → ℕ → String → Layout → Row
row family from to name layout = record {
  family = family;
  from = from;
  to = to;
  generation = record { name = name; layout = layout };
}

abbrev pub supported_generations : List Row
supported_generations =
    row 0x19 0x00 0x10 "Milan" legacy
    ∷ row 0x19 0x10 0x20 "Genoa" legacy
    ∷ row 0x19 0xA0 0xB0 "Bergamo/Siena" legacy
    ∷ row 0x1A 0x00 0x12 "Turin" turin
    ∷ []

abbrev pub covers : Row → ℕ → ℕ → Bool
covers r family model = family == r.family && (leb r.from model && ltb model r.to)

abbrev pub find_row : List Row → ℕ → ℕ → Result ReportError Generation
find_row [] family model = err (unknown_cpu (pos family) (pos model))
find_row (r ∷ rows) family model =
    if covers r family model then ok r.generation else find_row rows family model

unfoldable pub resolve_generation : ℕ → ℕ → Result ReportError Generation
resolve_generation family model = find_row supported_generations family model

abbrev pub same_layout : Layout → Layout → Bool
same_layout legacy legacy = true
same_layout turin turin = true
same_layout (other_layout a) (other_layout b) = str_eq a b
same_layout _ _ = false

-- Equality of the pairs, as `report_gen != generation` asks it.
abbrev pub same_generation : Generation → Generation → Bool
same_generation a b = str_eq a.name b.name && same_layout a.layout b.layout

-- The two variables of the loop over /proc/cpuinfo.
pub record Cpu : Type 0 where
  pub family : Option ℤ
  pub model : Option ℤ

abbrev pub is_none {ℓ} : {A : Type ℓ} → Option A → Bool
is_none none = true
is_none (some a) = false

abbrev parse_field : String → Result ReportError ℤ
parse_field value = elim (int (strip value)) [ none ↦ err value_error | some n ↦ ok n ]

-- One pass of the loop body.
unfoldable pub read_line : Cpu → String → Result ReportError Cpu
unfolding partition strip int
read_line cpu line =
    let (before, sep, value) = partition b':' line in
    let key = strip before in
    if str_eq key "cpu family" && is_none cpu.family
    then (parse_field value >>= λ n. ok (record cpu { family = some n }))
    else if str_eq key "model" && is_none cpu.model
    then (parse_field value >>= λ n. ok (record cpu { model = some n }))
    else ok cpu

-- The loop, with its `break` once both are known.
unfoldable pub read_lines : Cpu → List String → Result ReportError Cpu
unfolding read_line
read_lines cpu [] = ok cpu
read_lines cpu (line ∷ lines) = read_line cpu line >>= λ after. elim after.family [
  | none ↦ read_lines after lines
  | some f ↦ elim after.model [ none ↦ read_lines after lines | some m ↦ ok after ]
]

-- A negative family or model is in no range.
unfoldable pub resolve_int : ℤ → ℤ → Result ReportError Generation
unfolding resolve_generation
resolve_int (pos family) (pos model) = resolve_generation family model
resolve_int family model = err (unknown_cpu family model)

unfoldable pub resolve_cpu : Cpu → Result ReportError Generation
unfolding resolve_int
resolve_cpu cpu = elim cpu.family [
  | none ↦ err no_family_or_model
  | some family ↦ elim cpu.model [
    | none ↦ err no_family_or_model
    | some model ↦ resolve_int family model
  ]
]

-- `none` stands for a file that cannot be read.
unfoldable pub host_generation : Option (List String) → Result ReportError Generation
unfolding read_lines resolve_cpu
host_generation none = err unreadable_cpuinfo
host_generation (some lines) =
    read_lines (record { family = none; model = none }) lines >>= resolve_cpu
