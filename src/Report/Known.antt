-- ===== src/Report/Known.antt =====
-- Decoding with a known layout, and the cross-check against the host's generation.
use mathlib.Core.Path.{subst}
use sev_certify.Prelude.{
  ℕ, ◌≤◌, ◌≡◌, refl, false, List, Option, none, some, Result, ok, err, arith, ◌+◌, [], ◌∷◌, length,
  length-take, length-drop, drop, ◌⊎◌, inl, inr, Bool-cases, Each, leb,
}
use sev_certify.Report.Off
use sev_certify.Report.Tcb.{
  ReportError, Layout, legacy, turin, other_layout, TcbVersion, from_bytes, foreign_cpu,
}
use sev_certify.Report.Generation.{
  Generation, Row, covers, find_row, resolve_generation, supported_generations, same_generation,
}
use sev_certify.Report.Parse.{
  Cpuid, field, report_size, choose_generation, cross_check, from_report, Choice, Tcbs, decode_tcbs,
  decode_launch,
}

-- The layouts that `from_bytes` decodes.
abbrev pub IsKnown : Layout → Type 0
IsKnown legacy = Unit
IsKnown turin = Unit
IsKnown (other_layout name) = ⊥

find_row-IsKnown :
    (rows : List Row) (family model : ℕ) (g : Generation)
    → Each (λ r. IsKnown r.generation.layout) rows
    → find_row rows family model ≡ ok g
    → IsKnown g.layout
find_row-IsKnown [] family model g k h = cc
find_row-IsKnown (r ∷ rows) family model g k h = elim (Bool-cases (covers r family model)) [
  | inl e ↦ let p : r.generation ≡ g = ground (arith, e) in subst (λ x. IsKnown x.layout) p k.0
  | inr e ↦ find_row-IsKnown rows family model g k.1 (ground (arith, e))
]

pub resolve_generation-IsKnown :
    (family model : ℕ) (g : Generation) → resolve_generation family model ≡ ok g → IsKnown g.layout
unfolding resolve_generation
resolve_generation-IsKnown family model g h =
    find_row-IsKnown supported_generations family model g (tt, (tt, (tt, (tt, tt)))) h

from_bytes-IsKnown :
    (raw : List ℕ) (layout : Layout)
    → 8 ≤ length raw
    → IsKnown layout
    → (t : TcbVersion) × (from_bytes raw layout ≡ ok t)
unfolding from_bytes
from_bytes-IsKnown (a ∷ b ∷ c ∷ d ∷ e ∷ f ∷ g ∷ h ∷ rest) legacy n k = (_, refl)
from_bytes-IsKnown (a ∷ b ∷ c ∷ d ∷ e ∷ f ∷ g ∷ h ∷ rest) turin n k = (_, refl)
from_bytes-IsKnown raw (other_layout name) n k = absurd k
from_bytes-IsKnown _ _ n k = absurd (omega arith)

pub length-field :
    (bytes : List ℕ) (off len : ℕ) → off + len ≤ length bytes → length (field bytes off len) ≡ len
unfolding field
length-field bytes off len h =
    omega (arith, length-take len (drop off bytes), length-drop off bytes)

-- The report's CPUID resolves to a generation that is not the host's.
pub record Foreign (host : Generation) (cpuid : Option Cpuid) : Type 0 where
  pub copy : Cpuid
  pub present : cpuid ≡ some copy
  pub other : Generation
  pub resolved : resolve_generation copy.family copy.model ≡ ok other
  pub differs : same_generation other host ≡ false

abbrev pub HostKnown : Option Generation → Type 0
HostKnown none = Unit
HostKnown (some g) = IsKnown g.layout

abbrev ChoiceKnown : Choice → Type 0
ChoiceKnown c = HostKnown c.generation

cross_check-cases :
    (host : Generation) (cpuid : Cpuid) (r : Result ReportError Generation)
    → IsKnown host.layout
    → resolve_generation cpuid.family cpuid.model ≡ r
    → ((c : Choice) × (cross_check host cpuid r ≡ ok c) × ChoiceKnown c)
      ⊎ ((f : Foreign host (some cpuid)) × (cross_check host cpuid r
            ≡ err (foreign_cpu f.other.name host.name)))
unfolding cross_check
cross_check-cases host cpuid (err e) k h = inl (_, refl, k)
cross_check-cases host cpuid (ok g) k h = elim (Bool-cases (same_generation g host)) [
  | inl e ↦ inl (record { generation = some host; note = none }, rw e, k)
  | inr e ↦
      inr (record { copy = cpuid; present = refl; other = g; resolved = h; differs = e }, rw e)
]

from_report-ChoiceKnown :
    (cpuid : Cpuid) (r : Result ReportError Generation)
    → resolve_generation cpuid.family cpuid.model ≡ r
    → ChoiceKnown (from_report cpuid r)
unfolding from_report
from_report-ChoiceKnown cpuid (ok g) h = resolve_generation-IsKnown cpuid.family cpuid.model g h
from_report-ChoiceKnown cpuid (err e) h = tt

abbrev pub ForeignTo : Option Generation → Option Cpuid → ReportError → Type 0
ForeignTo none cpuid e = ⊥
ForeignTo (some host) cpuid e = (f : Foreign host cpuid) × (e ≡ foreign_cpu f.other.name host.name)

pub choose_generation-cases :
    (generation : Option Generation) (cpuid : Option Cpuid)
    → HostKnown generation
    → ((c : Choice) × (choose_generation generation cpuid ≡ ok c) × ChoiceKnown c)
      ⊎ ((e : ReportError) × (choose_generation generation cpuid ≡ err e)
          × ForeignTo generation cpuid e)
unfolding choose_generation
choose_generation-cases none none k = inl (_, refl, tt)
choose_generation-cases none (some cpuid) k = inl (_, refl, from_report-ChoiceKnown cpuid _ refl)
choose_generation-cases (some host) none k = inl (_, refl, k)
choose_generation-cases (some host) (some cpuid) k = elim (cross_check-cases host cpuid _ k refl) [
  | inl found ↦ inl found
  | inr (f, e) ↦ inr (_, e, (f, refl))
]

-- A foreign processor is refused.
pub ForeignTo-refused :
    (generation : Option Generation) (cpuid : Option Cpuid) (e : ReportError)
    → ForeignTo generation cpuid e
    → choose_generation generation cpuid ≡ err e
unfolding choose_generation cross_check
ForeignTo-refused none cpuid e f = absurd f
ForeignTo-refused (some host) none e f = absurd (cc f.0.present)
ForeignTo-refused (some host) (some cpuid) e f =
    let same : cpuid ≡ f.0.copy = cc f.0.present in rw (same, f.0.resolved, f.0.differs, f.1)

decode_launch-IsKnown :
    (version : ℕ) (g : Generation) (bytes : List ℕ)
    → length bytes ≡ report_size
    → IsKnown g.layout
    → (t : Option TcbVersion) × (decode_launch version g bytes ≡ ok t)
unfolding decode_launch
decode_launch-IsKnown version g bytes n k =
    let (t, e) =
      from_bytes-IsKnown (field bytes Off.launch_tcb 8) g.layout
        (omega (arith, length-field bytes Off.launch_tcb 8)) k in
    elim (Bool-cases (leb 3 version)) [ inl new ↦ (some t, rw (new, e)) | inr old ↦ (none, rw old) ]

pub decode_tcbs-HostKnown :
    (version : ℕ) (g : Option Generation) (bytes : List ℕ)
    → length bytes ≡ report_size
    → HostKnown g
    → (t : Tcbs) × (decode_tcbs version g bytes ≡ ok t)
unfolding decode_tcbs
decode_tcbs-HostKnown version none bytes n k = (_, refl)
decode_tcbs-HostKnown version (some g) bytes n k =
    let (t, e) =
      from_bytes-IsKnown (field bytes Off.reported_tcb 8) g.layout
        (omega (arith, length-field bytes Off.reported_tcb 8)) k in
    let (l, d) = decode_launch-IsKnown version g bytes n k in
    (record { gen_name = g.name; reported_tcb = some t; launch_tcb = l }, rw (e, d))
