-- ===== src/Launch/HostDataLaws.antt =====
-- Host data is accepted in each of the forms that stand for 32 bytes.
use Prim.Native.Char.{code}
use sev_certify.Prelude.{
  ℕ, ◌≡◌, ◌≢◌, ◌≤◌, refl, ap, ◌∙◌, String, false, List, [], ◌∷◌, some, ok, arith, length, Each,
  ◌==◌, ◌/◌, ◌%◌, Bool-cases, inl, inr,
}
use sev_certify.Prelude.Texts.{is_empty}
use sev_certify.Prelude.TextLaws.{strip-solid}
use sev_certify.Prelude.Bytes.{text_length, to_hex, to_base64, base64_bytes, first, hex_char}
use sev_certify.Prelude.BytesLaws.{
  IsByte, hex_bytes-to_hex, base64_bytes-to_base64, text_length-to_hex, text_length-to_base64,
  to_hex-solid, to_base64-solid, hex_char-plain,
}
use sev_certify.Launch.HostData.{decode_text, decode_host_data, hex_text}

hex_text-to_hex : (bytes : List ℕ) → Each IsByte bytes → hex_text (to_hex bytes) ≡ to_hex bytes
hex_text-to_hex [] h = refl
hex_text-to_hex (b ∷ bytes) h =
    let plain = (hex_char-plain (b % 16) (omega arith)).1 in
    elim (Bool-cases (code (hex_char (b / 16)) == b'0')) [
      | inl e ↦ rw e (rw plain refl)
      | inr e ↦ rw e refl
    ]

text_length-hex_text : (s : String) → text_length (hex_text s) ≤ text_length s
text_length-hex_text String.[] = omega arith
text_length-hex_text (String.◌∷◌ c String.[]) = ground arith
text_length-hex_text (String.◌∷◌ c (String.◌∷◌ d s)) = ground arith

nonempty : (s : String) → text_length s ≢ 0 → is_empty s ≡ false
nonempty String.[] h = absurd (h refl)
nonempty (String.◌∷◌ c s) h = refl

decode_text-to_hex :
    (bytes : List ℕ) → length bytes ≡ 32 → Each IsByte bytes → decode_text (to_hex bytes) ≡ ok bytes
unfolding decode_text
decode_text-to_hex bytes n h =
    let size = text_length-to_hex bytes in
    let here = nonempty (to_hex bytes) (omega (arith, size, n)) in
    ground (arith, hex_text-to_hex bytes h, hex_bytes-to_hex bytes h, size, here)

-- "0x" before a text.
abbrev pub prefixed : String → String
prefixed s = String.◌∷◌ "0" (String.◌∷◌ "x" s)

decode_text-prefixed :
    (bytes : List ℕ)
    → length bytes ≡ 32
    → Each IsByte bytes
    → decode_text (prefixed (to_hex bytes)) ≡ ok bytes
unfolding decode_text
decode_text-prefixed bytes n h = ground (arith, hex_bytes-to_hex bytes h, text_length-to_hex bytes)

too_short : (m n : ℕ) → m ≤ n → n ≡ 44 → (m == 64) ≡ false
too_short m n h size = ground arith

decode_text-otherwise :
    (text : String) (bytes : List ℕ)
    → is_empty text ≡ false
    → (text_length (hex_text text) == 64) ≡ false
    → base64_bytes first text ≡ some bytes
    → decode_text text ≡ ok bytes
unfolding decode_text
decode_text-otherwise text bytes here wrong read = rw here (rw wrong (rw read refl))

decode_text-to_base64 :
    (bytes : List ℕ)
    → length bytes ≡ 32
    → Each IsByte bytes
    → decode_text (to_base64 bytes) ≡ ok bytes
decode_text-to_base64 bytes n h =
    let size : text_length (to_base64 bytes) ≡ 44 = omega (arith, text_length-to_base64 bytes, n) in
    let here = nonempty (to_base64 bytes) (omega (arith, size)) in
    let wrong =
      too_short (text_length (hex_text (to_base64 bytes))) (text_length (to_base64 bytes))
        (text_length-hex_text (to_base64 bytes)) size in
    decode_text-otherwise (to_base64 bytes) bytes here wrong (base64_bytes-to_base64 bytes h)

-- 32 bytes, written in hexadecimal, in hexadecimal behind "0x", or in base64, are decoded to
-- themselves.
pub decode_host_data-encoded :
    (bytes : List ℕ)
    → length bytes ≡ 32
    → Each IsByte bytes
    → (decode_host_data (to_hex bytes) ≡ ok bytes)
      × (decode_host_data (prefixed (to_hex bytes)) ≡ ok bytes)
      × (decode_host_data (to_base64 bytes) ≡ ok bytes)
unfolding decode_host_data
decode_host_data-encoded bytes n h =
    let solid_hex = to_hex-solid bytes h in
    (
      ap decode_text (strip-solid (to_hex bytes) solid_hex) ∙ decode_text-to_hex bytes n h,
      ap decode_text (strip-solid (prefixed (to_hex bytes)) solid_hex)
          ∙ decode_text-prefixed bytes n h,
      ap decode_text (strip-solid (to_base64 bytes) (to_base64-solid bytes h))
          ∙ decode_text-to_base64 bytes n h,
    )
