-- ===== src/Report/Table.antt =====
-- The generation table and the scan of /proc/cpuinfo.
use sev_certify.Prelude.{
  ℕ, ◌≡◌, refl, ◌≢◌, String, true, List, [], ◌∷◌, ◌++◌, none, ok, arith, Each, inl, inr,
  Result-cases,
}
use sev_certify.Report.Generation.{
  Cpu, supported_generations, covers, resolve_generation, read_line, read_lines,
}

-- No row of the table is hidden by an earlier one: a family and a model that a row covers resolve to
-- the name and the layout of that row.
pub resolve_generation-covers :
    (family model : ℕ)
    → Each
        (λ r. covers r family model ≡ true → resolve_generation family model ≡ ok r.generation)
        supported_generations
unfolding resolve_generation
resolve_generation-covers family model = ground arith

-- Once both are known, the loop body changes nothing, and the loop stops.
read_line-known :
    (cpu : Cpu) (line : String) → cpu.family ≢ none → cpu.model ≢ none → read_line cpu line ≡ ok cpu
unfolding read_line
read_line-known cpu line f m = ground arith

read_lines-known :
    (cpu : Cpu) (lines : List String)
    → cpu.family ≢ none
    → cpu.model ≢ none
    → read_lines cpu lines ≡ ok cpu
unfolding read_lines
read_lines-known cpu [] f m = refl
read_lines-known cpu (line ∷ lines) f m = rw (read_line-known cpu line f m) (ground arith)

-- If a scan ends with both the family and the model known, the lines behind are not looked at: the
-- scan of the longer file has the same result, whatever they hold.
pub read_lines-append :
    (cpu : Cpu) (lines more : List String) (after : Cpu)
    → read_lines cpu lines ≡ ok after
    → after.family ≢ none
    → after.model ≢ none
    → read_lines cpu (lines ++ more) ≡ ok after
unfolding read_lines
read_lines-append cpu [] more after h f m = ground (arith, read_lines-known after more f m)
read_lines-append cpu (line ∷ lines) more after h f m = elim (Result-cases (read_line cpu line)) [
  | inl (next, e) ↦ ground (arith, e, read_lines-append next lines more after)
  | inr (x, e) ↦ ground (arith, e)
]
