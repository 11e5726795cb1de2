-- ===== src/Report/Encoding.antt =====
-- `TcbVersion.from_bytes` and `TcbVersion.to_u64` are inverse for each layout.
use Prim.Native.Nat.{bit_or}
use sev_certify.Prelude.{
  ℕ, ◌+◌, ◌*◌, ◌/◌, ◌%◌, ◌^◌, ◌<◌, ◌≡◌, List, [], ◌∷◌, Option, none, some, ok, ◌>>=◌, arith, ap,
}
use sev_certify.Report.Bits.{bit_or_disjoint}
use sev_certify.Report.Tcb.{TcbVersion, Layout, legacy, turin, other_layout, from_bytes, to_u64}

-- The eight bytes of a u64, lowest first, as struct.pack("<Q", n) gives them.
abbrev pub bytes_of_u64 : ℕ → List ℕ
bytes_of_u64 n =
    n % 256
    ∷ n / 2 ^ 8 % 256
    ∷ n / 2 ^ 16 % 256
    ∷ n / 2 ^ 24 % 256
    ∷ n / 2 ^ 32 % 256
    ∷ n / 2 ^ 40 % 256
    ∷ n / 2 ^ 48 % 256
    ∷ n / 2 ^ 56 % 256
    ∷ []

-- A component fits its byte, and there is an FMC exactly where the layout has one.
abbrev pub HasFmc : Layout → Option ℕ → Type 0
HasFmc turin (some n) = n < 256
HasFmc legacy none = Unit
HasFmc _ _ = ⊥

pub record Fits (layout : Layout) (t : TcbVersion) : Type 0 where
  pub bootloader : t.bootloader < 256
  pub tee : t.tee < 256
  pub snp : t.snp < 256
  pub microcode : t.microcode < 256
  pub fmc : HasFmc layout t.fmc

-- The packed values, as sums.
legacy_sum :
    (a b c d : ℕ)
    → bit_or
        (bit_or (bit_or (a % 256) ((b % 256) * 2 ^ 8)) ((c % 256) * 2 ^ 48))
        ((d % 256) * 2 ^ 56)
      ≡ a % 256 + (b % 256) * 2 ^ 8 + (c % 256) * 2 ^ 48 + (d % 256) * 2 ^ 56
legacy_sum a b c d = rw (bit_or_disjoint 8 (a % 256) (b % 256) (omega arith)) (
    rw (bit_or_disjoint 48 (a % 256 + (b % 256) * 2 ^ 8) (c % 256) (omega arith))
      (bit_or_disjoint 56 _ (d % 256) (omega arith)))

turin_sum :
    (f a b c d : ℕ)
    → bit_or
        (bit_or
          (bit_or (bit_or (f % 256) ((a % 256) * 2 ^ 8)) ((b % 256) * 2 ^ 16))
          ((c % 256) * 2 ^ 24))
        ((d % 256) * 2 ^ 56)
      ≡ f % 256 + (a % 256) * 2 ^ 8 + (b % 256) * 2 ^ 16 + (c % 256) * 2 ^ 24 + (d % 256) * 2 ^ 56
turin_sum f a b c d = rw (bit_or_disjoint 8 (f % 256) (a % 256) (omega arith)) (
    rw (bit_or_disjoint 16 (f % 256 + (a % 256) * 2 ^ 8) (b % 256) (omega arith)) (
      rw
        (bit_or_disjoint 24 (f % 256 + (a % 256) * 2 ^ 8 + (b % 256) * 2 ^ 16) (c % 256)
          (omega arith))
        (bit_or_disjoint 56 _ (d % 256) (omega arith))))

abbrev Recodes : TcbVersion → Layout → Type 0
Recodes t layout = (to_u64 t layout >>= λ n. from_bytes (bytes_of_u64 n) layout) ≡ ok t

module _ (a b c d : ℕ) (ha : a < 256) (hb : b < 256) (hc : c < 256) (hd : d < 256) where
  Recodes-legacy :
      Recodes (record { bootloader = a; tee = b; snp = c; microcode = d; fmc = none }) legacy
  unfolding to_u64 from_bytes
  Recodes-legacy = rw (legacy_sum a b c d) (ground arith)

  Recodes-turin :
      (f : ℕ)
      → f < 256
      → Recodes (record { bootloader = a; tee = b; snp = c; microcode = d; fmc = some f }) turin
  unfolding to_u64 from_bytes
  Recodes-turin f hf = rw (turin_sum f a b c d) (ground arith)

Recodes-fields :
    (layout : Layout) (a b c d : ℕ) (f : Option ℕ)
    → Fits layout (record { bootloader = a; tee = b; snp = c; microcode = d; fmc = f })
    → Recodes (record { bootloader = a; tee = b; snp = c; microcode = d; fmc = f }) layout
Recodes-fields legacy a b c d none h = Recodes-legacy a b c d h.bootloader h.tee h.snp h.microcode
Recodes-fields legacy a b c d (some f) h = absurd h.fmc
Recodes-fields turin a b c d none h = absurd h.fmc
Recodes-fields turin a b c d (some f) h =
    Recodes-turin a b c d h.bootloader h.tee h.snp h.microcode f h.fmc
Recodes-fields (other_layout name) a b c d f h = absurd h.fmc

-- For a known layout, and components that fit their bytes with an FMC exactly under the Turin
-- layout, decoding the little-endian bytes of the packed u64 gives the same TCB version back.
pub to_u64-from_bytes :
    (layout : Layout) (t : TcbVersion)
    → Fits layout t
    → (to_u64 t layout >>= λ n. from_bytes (bytes_of_u64 n) layout) ≡ ok t
to_u64-from_bytes layout t h = Recodes-fields layout t.bootloader t.tee t.snp t.microcode t.fmc h

-- Encoding what was decoded from the bytes of a u64 gives that u64 with its reserved bytes cleared:
-- bytes 2 to 5 under the legacy layout, bytes 4 to 6 under the Turin layout.
pub from_bytes-to_u64 :
    (n : ℕ)
    → n < 2 ^ 64
    → ((from_bytes (bytes_of_u64 n) legacy >>= λ t. to_u64 t legacy)
        ≡ ok (n % 2 ^ 16 + n / 2 ^ 48 * 2 ^ 48))
      × ((from_bytes (bytes_of_u64 n) turin >>= λ t. to_u64 t turin)
          ≡ ok (n % 2 ^ 32 + n / 2 ^ 56 * 2 ^ 56))
unfolding to_u64 from_bytes
from_bytes-to_u64 n h = (
  rw (legacy_sum (n % 256) (n / 2 ^ 8 % 256) (n / 2 ^ 48 % 256) (n / 2 ^ 56 % 256))
      (ap ok (omega arith)),
  rw
      (turin_sum (n % 256) (n / 2 ^ 8 % 256) (n / 2 ^ 16 % 256) (n / 2 ^ 24 % 256)
        (n / 2 ^ 56 % 256))
      (ap ok (omega arith)),
)
