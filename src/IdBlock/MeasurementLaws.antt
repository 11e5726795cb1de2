-- ===== src/IdBlock/MeasurementLaws.antt =====
-- What a measurement that was read stands for, and how its corruption differs.
use Prim.Native.Char.{Char, code}
use sev_certify.Prelude.{
  ℕ, zero, suc, ◌+◌, ◌*◌, ◌/◌, ◌%◌, ◌≡◌, ◌≢◌, ◌↔◌, refl, ap, sym, ◌∙◌, String, true, ◌&&◌, List, [],
  ◌∷◌, Option, none, some, ok, ◌==◌, ==_iff, arith, length, Bool-cases, inl, inr,
}
use sev_certify.Prelude.Texts.{is_some, strip}
use sev_certify.Prelude.Bytes.{text_length, hex_digit, hex_bytes, prepend}
use sev_certify.Prelude.BytesLaws.{hex_step}
use sev_certify.Launch.HostData.{hex_text}
use sev_certify.IdBlock.Measurement.{
  measurement_hex_len, all_hex, check_body, read_measurement, flipped, incompatible_policy,
  bad_policy,
}

present : {A : Type 0} (o : Option A) → is_some o ≡ true → (a : A) × (o ≡ some a)
present none h = absurd (cc h)
present (some a) h = (a, refl)

-- A text of twice `n` hexadecimal digits stands for `n` bytes.
all_hex-bytes :
    (n : ℕ) (s : String)
    → all_hex s ≡ true
    → text_length s ≡ n * 2
    → (bytes : List ℕ) × (hex_bytes none s ≡ some bytes) × (length bytes ≡ n)
unfolding hex_bytes
all_hex-bytes zero String.[] h size = ([], refl, refl)
all_hex-bytes zero (String.◌∷◌ c s) h size = absurd (omega (arith, size))
all_hex-bytes (suc n) String.[] h size = absurd (omega (arith, size))
all_hex-bytes (suc n) (String.◌∷◌ c String.[]) h size = absurd (omega (arith, size))
all_hex-bytes (suc n) (String.◌∷◌ c (String.◌∷◌ d s)) h size =
    let (high, e) = present (hex_digit (code c)) (ground (arith, h)) in
    let (low, e1) = present (hex_digit (code d)) (ground (arith, h)) in
    let (bytes, rest, count) = all_hex-bytes n s (ground (arith, h)) (omega (arith, size)) in
    (
      (high * 16 + low) ∷ bytes,
      hex_step c d high low s e e1 ∙ ap (prepend (high * 16 + low)) rest,
      omega (arith, count),
    )

check_body-ok :
    (text body : String)
    → check_body text ≡ ok body
    → (all_hex body ≡ true) × (text_length body ≡ 96)
unfolding check_body
check_body-ok text body h = elim (Bool-cases (text_length text == measurement_hex_len)) [
  | inr e ↦ absurd (ground (arith, e, h))
  | inl e ↦ elim (Bool-cases (all_hex text)) [
    | inr e1 ↦ absurd (ground (arith, e, e1, h))
    | inl e1 ↦
        let same : text ≡ body = ground (arith, e, e1, h) in
        (ap all_hex (sym same) ∙ e1, ap text_length (sym same) ∙ (==_iff (text_length text) 96).0 e)
  ]
]

-- A measurement that is read stands for 48 bytes.
pub read_measurement-bytes :
    (file : Option String) (body : String)
    → read_measurement file ≡ ok body
    → (bytes : List ℕ) × (hex_bytes none body ≡ some bytes) × (length bytes ≡ 48)
unfolding read_measurement
read_measurement-bytes none body h = absurd (cc h)
read_measurement-bytes (some file) body h =
    let (hex, size) = check_body-ok (hex_text (strip file)) body h in all_hex-bytes 48 body hex size

zero_digit : (c n : ℕ) → hex_digit c ≡ some n → ((c == b'0') ≡ true) ↔ (n ≡ 0)
zero_digit c n e = (λ h. ground (arith, e, h), λ h. ground (arith, e, h))

abbrev pub FlippedAs : String → Type 0
FlippedAs body =
    (first wrong : ℕ) × (rest : List ℕ) × (hex_bytes none body ≡ some (first ∷ rest))
    × (hex_bytes none (flipped body) ≡ some (wrong ∷ rest))
    × (wrong ≢ first)
    × (length rest ≡ 47)

flipped-FlippedAs :
    (c d : Char) (s : String) (high low : ℕ) (rest : List ℕ)
    → hex_digit (code c) ≡ some high
    → hex_digit (code d) ≡ some low
    → hex_bytes none s ≡ some rest
    → length rest ≡ 47
    → FlippedAs (String.◌∷◌ c (String.◌∷◌ d s))
unfolding flipped
flipped-FlippedAs c d s high low rest e e1 e2 count =
    let real = hex_step c d high low s e e1 ∙ ap (prepend (high * 16 + low)) e2 in
    let high_zero = zero_digit (code c) high e in
    let low_zero = zero_digit (code d) low e1 in
    elim (Bool-cases (code c == b'0' && code d == b'0')) [
      | inl z ↦
          let z0 = high_zero.0 (ground (arith, z)) in
          let z1 = low_zero.0 (ground (arith, z)) in
          (
            high * 16 + low,
            255,
            rest,
            real,
            rw z (hex_step "f" "f" 15 15 s refl refl ∙ ap (prepend 255) e2),
            λ same. omega (arith, same, z0, z1),
            count,
          )
      | inr z ↦ (
        high * 16 + low,
        0,
        rest,
        real,
        rw z (hex_step "0" "0" 0 0 s refl refl ∙ ap (prepend 0) e2),
        λ same.
            let h0 = high_zero.1 (omega (arith, same)) in
            let l0 = low_zero.1 (omega (arith, same)) in cc (h0, l0, z),
        count,
      )
    ]

-- The corrupted measurement differs from the one that was read in the first byte, and only there.
pub flipped-bytes :
    (file : Option String) (body : String) → read_measurement file ≡ ok body → FlippedAs body
unfolding read_measurement
flipped-bytes none body h = absurd (cc h)
flipped-bytes (some file) String.[] h =
    absurd (omega (arith, (check_body-ok (hex_text (strip file)) "" h).1))
flipped-bytes (some file) (String.◌∷◌ c String.[]) h =
    absurd (omega (arith, (check_body-ok (hex_text (strip file)) (String.◌∷◌ c "") h).1))
flipped-bytes (some file) (String.◌∷◌ c (String.◌∷◌ d s)) h =
    let (hex, size) = check_body-ok (hex_text (strip file)) (String.◌∷◌ c (String.◌∷◌ d s)) h in
    let (high, e) = present (hex_digit (code c)) (ground (arith, hex)) in
    let (low, e1) = present (hex_digit (code d)) (ground (arith, hex)) in
    let (rest, e2, count) = all_hex-bytes 47 s (ground (arith, hex)) (omega (arith, size)) in
    flipped-FlippedAs c d s high low rest e e1 e2 count

-- The policy of the second negative case differs from the original one in bit 16 alone, which is 0.
pub incompatible_policy-bits :
    (policy : ℕ)
    → (incompatible_policy policy / 65536 % 2 ≡ 0)
      × (incompatible_policy policy % 65536 ≡ policy % 65536)
      × (incompatible_policy policy / 131072 ≡ policy / 131072)
unfolding incompatible_policy
incompatible_policy-bits policy = (omega arith, omega arith, omega arith)

-- The policy of the third negative case differs from the original one in bits 15 to 8 alone, which are
-- all 1.
pub bad_policy-bits :
    (policy : ℕ)
    → (bad_policy policy / 256 % 256 ≡ 255)
      × (bad_policy policy % 256 ≡ policy % 256)
      × (bad_policy policy / 65536 ≡ policy / 65536)
unfolding bad_policy
bad_policy-bits policy = (omega arith, omega arith, omega arith)
