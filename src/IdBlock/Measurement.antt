-- ===== src/IdBlock/Measurement.antt =====
-- cvm_props.py: `read_measurement`; id_block_test.py: the corrupted measurement and the policies.
use Prim.Native.Char.{code}
use sev_certify.Prelude.{
  ℕ, ◌+◌, ◌*◌, ◌/◌, ◌%◌, String, Bool, true, false, ◌&&◌, Option, none, some, Result, ok, err, ◌==◌,
  if◌then◌else◌,
}
use sev_certify.Prelude.Texts.{strip, is_some}
use sev_certify.Prelude.Bytes.{text_length, hex_digit}
use sev_certify.Launch.HostData.{hex_text}

pub data MeasurementError : Type 0 where
  measurement_missing : MeasurementError
  wrong_length : ℕ → MeasurementError
  non_hex : MeasurementError

abbrev pub measurement_hex_len : ℕ
measurement_hex_len = 96

-- `all(c in string.hexdigits for c in body)`.
abbrev pub all_hex : String → Bool
all_hex String.[] = true
all_hex (String.◌∷◌ c s) = is_some (hex_digit (code c)) && all_hex s

unfoldable pub check_body : String → Result MeasurementError String
check_body body =
    if text_length body == measurement_hex_len
    then (if all_hex body then ok body else err non_hex)
    else err (wrong_length (text_length body))

-- Of the text of the file, or of none if it is absent.
unfoldable pub read_measurement : Option String → Result MeasurementError String
unfolding check_body strip
read_measurement none = err measurement_missing
read_measurement (some file) = check_body (hex_text (strip file))

abbrev is_zero_byte : String → Bool
is_zero_byte String.[] = false
is_zero_byte (String.◌∷◌ c String.[]) = false
is_zero_byte (String.◌∷◌ c (String.◌∷◌ d s)) = code c == b'0' && code d == b'0'

-- `s[2:]`.
abbrev without_byte : String → String
without_byte String.[] = ""
without_byte (String.◌∷◌ c String.[]) = ""
without_byte (String.◌∷◌ c (String.◌∷◌ d s)) = s

-- `set_bad_measurement`: the first byte replaced by another.
unfoldable pub flipped : String → String
flipped real =
    if is_zero_byte real
    then String.◌∷◌ "f" (String.◌∷◌ "f" (without_byte real))
    else String.◌∷◌ "0" (String.◌∷◌ "0" (without_byte real))

-- `policy & ~(1 << 16)`.
unfoldable pub incompatible_policy : ℕ → ℕ
incompatible_policy policy = policy % 65536 + policy / 131072 * 131072

-- `(policy & ~0xFF00) | (0xFF << 8)`.
unfoldable pub bad_policy : ℕ → ℕ
bad_policy policy = policy % 256 + 255 * 256 + policy / 65536 * 65536
