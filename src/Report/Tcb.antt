-- ===== src/Report/Tcb.antt =====
-- TCB_VERSION of attestation_report.py: `TcbVersion` with its two byte layouts.
use Prim.Native.Nat.{bit_or}
use sev_certify.Prelude.{
  ℕ, zero, suc, ◌*◌, ◌%◌, ◌^◌, String, List, [], ◌∷◌, Option, none, some, Result, ok, err, ◌>>=◌, ℤ,
}

-- The strings of `TCB_LAYOUT_LEGACY` and `TCB_LAYOUT_TURIN`, and any other string.
pub data Layout : Type 0 where
  legacy turin : Layout
  other_layout : String → Layout

-- The exceptions below ReportError, and the OSError, IndexError and ValueError that Python itself
-- raises.
pub data ReportError : Type 0 where
  malformed : (size : ℕ) → ReportError
  not_found : ReportError
  unsupported_version : (version : ℕ) → ReportError
  unknown_cpu : (family model : ℤ) → ReportError
  foreign_cpu : (report_name host_name : String) → ReportError
  unknown_layout : String → ReportError
  unreadable_cpuinfo : ReportError
  no_family_or_model : ReportError
  os_error : ReportError
  index_error : ReportError
  value_error : ReportError

pub record TcbVersion : Type 0 where
  pub bootloader : ℕ
  pub tee : ℕ
  pub snp : ℕ
  pub microcode : ℕ
  pub fmc : Option ℕ

-- `raw[i]`.
abbrev pub index : List ℕ → ℕ → Result ReportError ℕ
index [] i = err index_error
index (b ∷ bs) zero = ok b
index (b ∷ bs) (suc i) = index bs i

unfoldable pub from_bytes : List ℕ → Layout → Result ReportError TcbVersion
from_bytes raw turin = do
  fmc ← index raw 0
  bootloader ← index raw 1
  tee ← index raw 2
  snp ← index raw 3
  microcode ← index raw 7
  ok (record {
    bootloader = bootloader;
    tee = tee;
    snp = snp;
    microcode = microcode;
    fmc = some fmc;
  })
from_bytes raw legacy = do
  bootloader ← index raw 0
  tee ← index raw 1
  snp ← index raw 6
  microcode ← index raw 7
  ok (record { bootloader = bootloader; tee = tee; snp = snp; microcode = microcode; fmc = none })
from_bytes raw (other_layout name) = err (unknown_layout name)

-- `x & 0xFF` is `x % 256`, and `x << k` is `x * 2 ^ k`.
abbrev pub fmc_or_zero : Option ℕ → ℕ
fmc_or_zero none = 0
fmc_or_zero (some n) = n

unfoldable pub to_u64 : TcbVersion → Layout → Result ReportError ℕ
to_u64 t turin = ok (
    bit_or
      (bit_or
        (bit_or (bit_or (fmc_or_zero t.fmc % 256) ((t.bootloader % 256) * 2 ^ 8))
          ((t.tee % 256) * 2 ^ 16))
        ((t.snp % 256) * 2 ^ 24))
      ((t.microcode % 256) * 2 ^ 56))
to_u64 t legacy = ok (
    bit_or (bit_or (bit_or (t.bootloader % 256) ((t.tee % 256) * 2 ^ 8)) ((t.snp % 256) * 2 ^ 48))
      ((t.microcode % 256) * 2 ^ 56))
to_u64 t (other_layout name) = err (unknown_layout name)
