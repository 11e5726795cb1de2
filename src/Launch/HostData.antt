-- ===== src/Launch/HostData.antt =====
-- vm_profile.py: `_decode_host_data` and `_validate_host_data`, with `bytes.fromhex` and
-- `base64.b64decode(validate=True)`.
use Prim.Native.Char.{code}
use sev_certify.Prelude.{
  ℕ, ℤ, ◌*◌, String, ◌||◌, List, Option, none, some, Result, ok, err, length, ◌==◌, if◌then◌else◌,
}
use sev_certify.Prelude.Texts.{is_empty, strip}
use sev_certify.Prelude.Bytes.{text_length, hex_bytes, base64_bytes, first}

pub data ProfileError : Type 0 where
  image_not_found : String → ProfileError
  host_data_empty host_data_hex host_data_base64 : ProfileError
  host_data_size : ℕ → ProfileError
  memory_not_positive : ProfileError
  cid_too_small port_out_of_range : ℤ → ProfileError
  response_not_positive : ProfileError
  ovmf_not_on_path : String → ProfileError
  ovmf_not_found : ProfileError

abbrev pub host_data_length : ℕ
host_data_length = 32

-- `text[2:] if text.lower().startswith("0x") else text`.
abbrev without_x : String → String → String
without_x text String.[] = text
without_x text (String.◌∷◌ c s) = if code c == b'x' || code c == b'X' then s else text

abbrev pub hex_text : String → String
hex_text String.[] = ""
hex_text (String.◌∷◌ c s) = if code c == b'0' then without_x (String.◌∷◌ c s) s else String.◌∷◌ c s

abbrev decoded_or : ProfileError → Option (List ℕ) → Result ProfileError (List ℕ)
decoded_or e none = err e
decoded_or e (some bytes) = ok bytes

-- `_decode_host_data` behind the strip.
unfoldable pub decode_text : String → Result ProfileError (List ℕ)
unfolding hex_bytes base64_bytes
decode_text text =
    if is_empty text
    then err host_data_empty
    else if text_length (hex_text text) == host_data_length * 2
    then decoded_or host_data_hex (hex_bytes none (hex_text text))
    else decoded_or host_data_base64 (base64_bytes first text)

unfoldable pub decode_host_data : String → Result ProfileError (List ℕ)
unfolding decode_text strip
decode_host_data host_data = decode_text (strip host_data)

abbrev pub check_size : Result ProfileError (List ℕ) → Result ProfileError (Unit {0})
check_size (err e) = err e
check_size (ok bytes) =
    if length bytes == host_data_length then ok tt else err (host_data_size (length bytes))

unfoldable pub validate_host_data : String → Result ProfileError (Unit {0})
unfolding decode_host_data
validate_host_data host_data = check_size (decode_host_data host_data)
