-- ===== src/Prelude/Decimal.antt =====
-- `str` of an integer.
use Prim.Native.Char.{Char}
use Prim.Native.Nat.{ℕ, zero, suc, ◌/◌, ◌%◌}
use Prim.Native.String.{String}
use mathlib.Core.Bool.{true, false}
use sev_certify.Prelude.Tests.{◌==◌}
use sev_certify.Prelude.Ints.{ℤ, pos, negsuc}

-- `s[n]`, within the text.
abbrev pub char_at : String → ℕ → Char
char_at String.[] n = "0"
char_at (String.◌∷◌ c s) zero = c
char_at (String.◌∷◌ c s) (suc n) = char_at s n

-- The digits of `n` in the given base, with `rest` behind. The fuel `suc n` is enough, since a step
-- divides by the base.
unfoldable pub digits_of : (base : ℕ) → (fuel : ℕ) → ℕ → String → String
digits_of base zero n rest = rest
digits_of base (suc fuel) n rest =
    let more = String.◌∷◌ (char_at "0123456789abcdef" (n % base)) rest in
    elim (n / base == 0) [ true ↦ more | false ↦ digits_of base fuel (n / base) more ]

unfoldable pub show_ℕ : ℕ → String
unfolding digits_of
show_ℕ n = digits_of 10 (suc n) n ""

unfoldable pub show_ℤ : ℤ → String
unfolding show_ℕ
show_ℤ (pos n) = show_ℕ n
show_ℤ (negsuc n) = String.◌∷◌ "-" (show_ℕ (suc n))

-- `hex(n)` of a natural number.
unfoldable pub hex : ℕ → String
unfolding digits_of
hex n = String.◌∷◌ "0" (String.◌∷◌ "x" (digits_of 16 (suc n) n ""))
