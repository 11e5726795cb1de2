-- ===== src/Prelude/Bytes.antt =====
-- `bytes.fromhex` and `base64.b64decode(validate=True)`, and encodings that they read back.
use Prim.Native.Char.{Char, code}
use Prim.Native.Nat.{ℕ, zero, suc, ◌+◌, ◌-◌, ◌*◌, ◌/◌, ◌%◌}
use Prim.Native.String.{String}
use mathlib.Core.Bool.{Bool, false, ◌&&◌, ◌||◌}
use mathlib.Core.Option.{Option, none, some}
use mathlib.Core.List.{List, [], ◌∷◌}
use sev_certify.Prelude.Tests.{◌==◌, leb, if◌then◌else◌}
use sev_certify.Prelude.Texts.{is_empty}
use sev_certify.Prelude.Decimal.{char_at}

-- `len(s)`.
abbrev pub text_length : String → ℕ
text_length String.[] = 0
text_length (String.◌∷◌ c s) = suc (text_length s)

-- `s[:n]`.
abbrev pub take_text : ℕ → String → String
take_text zero s = ""
take_text (suc n) String.[] = ""
take_text (suc n) (String.◌∷◌ c s) = String.◌∷◌ c (take_text n s)

abbrev pub prepend : ℕ → Option (List ℕ) → Option (List ℕ)
prepend n none = none
prepend n (some ns) = some (n ∷ ns)

-- White space in a bytes literal.
abbrev pub is_blank : ℕ → Bool
is_blank c = c == 32 || (leb 9 c && leb c 13)

abbrev pub hex_digit : ℕ → Option ℕ
hex_digit c =
    if leb b'0' c && leb c b'9'
    then some (c - 48)
    else if leb b'a' c && leb c b'f'
    then some (c - 87)
    else if leb b'A' c && leb c b'F'
    then some (c - 55)
    else none

-- `bytes.fromhex`, where the first digit of a byte is known or not; blanks may stand between bytes.
unfoldable pub hex_bytes : Option ℕ → String → Option (List ℕ)
hex_bytes none String.[] = some []
hex_bytes (some high) String.[] = none
hex_bytes none (String.◌∷◌ c s) = elim (hex_digit (code c)) [
  | some high ↦ hex_bytes (some high) s
  | none ↦ if is_blank (code c) then hex_bytes none s else none
]
hex_bytes (some high) (String.◌∷◌ c s) = elim (hex_digit (code c)) [
  | some low ↦ prepend (high * 16 + low) (hex_bytes none s)
  | none ↦ none
]

abbrev pub base64_digit : ℕ → Option ℕ
base64_digit c =
    if leb b'A' c && leb c b'Z'
    then some (c - 65)
    else if leb b'a' c && leb c b'z'
    then some (c - 71)
    else if leb b'0' c && leb c b'9'
    then some (c + 4)
    else if c == b'+'
    then some 62
    else if c == b'/'
    then some 63
    else none

abbrev is_pad : String → Bool
is_pad String.[] = false
is_pad (String.◌∷◌ c s) = code c == b'=' && is_empty s

-- The place in a group of four digits, with the bits that are left of the digit before.
pub data Place : Type 0 where
  first : Place
  second third fourth : ℕ → Place

-- What follows a digit, and what a padding ends.
unfoldable pub base64_bytes : Place → String → Option (List ℕ)
base64_bytes first String.[] = some []
base64_bytes (second left) String.[] = none
base64_bytes (third left) String.[] = none
base64_bytes (fourth left) String.[] = none
base64_bytes first (String.◌∷◌ c s) = elim (base64_digit (code c)) [
  | some d ↦ base64_bytes (second d) s
  | none ↦ none
]
base64_bytes (second left) (String.◌∷◌ c s) = elim (base64_digit (code c)) [
  | some d ↦ prepend (left * 4 + d / 16) (base64_bytes (third (d % 16)) s)
  | none ↦ none
]
base64_bytes (third left) (String.◌∷◌ c s) = elim (base64_digit (code c)) [
  | some d ↦ prepend (left * 16 + d / 4) (base64_bytes (fourth (d % 4)) s)
  | none ↦ if code c == b'=' && is_pad s then some [] else none
]
base64_bytes (fourth left) (String.◌∷◌ c s) = elim (base64_digit (code c)) [
  | some d ↦ prepend (left * 64 + d) (base64_bytes first s)
  | none ↦ if code c == b'=' && is_empty s then some [] else none
]

abbrev pub hex_char : ℕ → Char
hex_char n = char_at "0123456789abcdef" n

-- `bytes.hex`.
abbrev pub to_hex : List ℕ → String
to_hex [] = ""
to_hex (b ∷ bytes) = String.◌∷◌ (hex_char (b / 16)) (String.◌∷◌ (hex_char (b % 16)) (to_hex bytes))

abbrev pub base64_char : ℕ → Char
base64_char n = char_at "ABCDEFGHIJKLMNOPQRSTUVWXYZabcdefghijklmnopqrstuvwxyz0123456789+/" n

-- The encoding of RFC 4648, with padding.
abbrev pub to_base64 : List ℕ → String
to_base64 [] = ""
to_base64 (a ∷ []) = String.◌∷◌ (base64_char (a / 4)) (String.◌∷◌ (base64_char (a % 4 * 16)) "==")
to_base64 (a ∷ b ∷ []) =
    String.◌∷◌ (base64_char (a / 4))
      (String.◌∷◌ (base64_char (a % 4 * 16 + b / 16)) (String.◌∷◌ (base64_char (b % 16 * 4)) "="))
to_base64 (a ∷ b ∷ c ∷ bytes) = String.◌∷◌ (base64_char (a / 4)) (
    String.◌∷◌ (base64_char (a % 4 * 16 + b / 16)) (
      String.◌∷◌ (base64_char (b % 16 * 4 + c / 64))
        (String.◌∷◌ (base64_char (c % 64)) (to_base64 bytes))))
