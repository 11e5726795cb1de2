-- ===== src/Prelude/BytesLaws.antt =====
-- The decoders read back what the encoders write.
use Prim.Native.Char.{Char, code}
use Prim.Native.Nat.{ℕ, zero, suc, ◌+◌, ◌*◌, ◌/◌, ◌%◌, ◌<◌, ◌≤◌}
use Prim.Native.String.{String}
use mathlib.Core.Path.{◌≡◌, refl, ap, ◌∙◌}
use mathlib.Core.Bool.{Bool, true, false, ◌&&◌, ◌||◌, not}
use mathlib.Core.Logic.{inl, inr, ◌⊎◌}
use mathlib.Core.Option.{Option, none, some}
use mathlib.Core.List.{List, [], ◌∷◌}
use native.Mathlib.Omega.{arith}
use sev_certify.Prelude.Tests.{◌==◌, ==_iff}
use sev_certify.Prelude.Lists.{Each, length}
use sev_certify.Prelude.Texts.{is_space}
use sev_certify.Prelude.TextLaws.{solid}
use sev_certify.Prelude.Bytes.{
  text_length, prepend, hex_digit, hex_bytes, base64_digit, base64_bytes, first, second, third,
  fourth, hex_char, to_hex, base64_char, to_base64,
}

-- A test of each number below `n`.
abbrev all_below : ℕ → (ℕ → Bool) → Bool
all_below zero p = true
all_below (suc n) p = p n && all_below n p

same_or_below : (i n : ℕ) → i ≤ n → (i ≡ n) ⊎ (i < n)
same_or_below i n h = ground (arith, h)

below : (n : ℕ) (p : ℕ → Bool) (i : ℕ) → all_below n p ≡ true → i < n → p i ≡ true
below zero p i h small = absurd (omega (arith, small))
below (suc n) p i h small = elim (same_or_below i n (omega (arith, small))) [
  | inl e ↦ ap p e ∙ ground (arith, h)
  | inr less ↦ below n p i (ground (arith, h)) less
]

abbrev is_digit : Option ℕ → ℕ → Bool
is_digit none n = false
is_digit (some d) n = d == n

is_digit-some : (d : Option ℕ) (n : ℕ) → is_digit d n ≡ true → d ≡ some n
is_digit-some none n h = absurd (cc h)
is_digit-some (some d) n h = ap (λ x. some x) ((==_iff d n).0 h)

hex_digit-hex_char : (n : ℕ) → n < 16 → hex_digit (code (hex_char n)) ≡ some n
hex_digit-hex_char n h =
    is_digit-some _ n (below 16 (λ i. is_digit (hex_digit (code (hex_char i))) i) n refl h)

base64_digit-base64_char : (n : ℕ) → n < 64 → base64_digit (code (base64_char n)) ≡ some n
base64_digit-base64_char n h =
    is_digit-some _ n (below 64 (λ i. is_digit (base64_digit (code (base64_char i))) i) n refl h)

hex_high :
    (c : Char) (high : ℕ) (s : String)
    → hex_digit (code c) ≡ some high
    → hex_bytes none (String.◌∷◌ c s) ≡ hex_bytes (some high) s
unfolding hex_bytes
hex_high c high s e = rw (e, hex_bytes) refl

hex_low :
    (d : Char) (high low : ℕ) (s : String)
    → hex_digit (code d) ≡ some low
    → hex_bytes (some high) (String.◌∷◌ d s) ≡ prepend (high * 16 + low) (hex_bytes none s)
unfolding hex_bytes
hex_low d high low s e = rw (e, hex_bytes) refl

pub hex_step :
    (c d : Char) (high low : ℕ) (s : String)
    → hex_digit (code c) ≡ some high
    → hex_digit (code d) ≡ some low
    → hex_bytes none (String.◌∷◌ c (String.◌∷◌ d s)) ≡ prepend (high * 16 + low) (hex_bytes none s)
hex_step c d high low s e e1 = hex_high c high (String.◌∷◌ d s) e ∙ hex_low d high low s e1

abbrev pub IsByte : ℕ → Type 0
IsByte b = b < 256

pub hex_bytes-to_hex :
    (bytes : List ℕ) → Each IsByte bytes → hex_bytes none (to_hex bytes) ≡ some bytes
unfolding hex_bytes
hex_bytes-to_hex [] h = refl
hex_bytes-to_hex (b ∷ bytes) h =
    let same : b / 16 * 16 + b % 16 ≡ b = omega arith in
    hex_step (hex_char (b / 16)) (hex_char (b % 16)) (b / 16) (b % 16) (to_hex bytes)
      (hex_digit-hex_char (b / 16) (omega (arith, h.0))) (hex_digit-hex_char (b % 16) (omega arith))
    ∙ ap (prepend (b / 16 * 16 + b % 16)) (hex_bytes-to_hex bytes h.1)
    ∙ ap (λ x. some (x ∷ bytes)) same

module _ (c : Char) (d : ℕ) (s : String) (e : base64_digit (code c) ≡ some d) where
  at_first : base64_bytes first (String.◌∷◌ c s) ≡ base64_bytes (second d) s
  unfolding base64_bytes
  at_first = rw (e, base64_bytes) refl

  at_second :
      (left : ℕ)
      → base64_bytes (second left) (String.◌∷◌ c s)
        ≡ prepend (left * 4 + d / 16) (base64_bytes (third (d % 16)) s)
  unfolding base64_bytes
  at_second left = rw (e, base64_bytes) refl

  at_third :
      (left : ℕ)
      → base64_bytes (third left) (String.◌∷◌ c s)
        ≡ prepend (left * 16 + d / 4) (base64_bytes (fourth (d % 4)) s)
  unfolding base64_bytes
  at_third left = rw (e, base64_bytes) refl

  at_fourth :
      (left : ℕ)
      → base64_bytes (fourth left) (String.◌∷◌ c s) ≡ prepend (left * 64 + d) (base64_bytes first s)
  unfolding base64_bytes
  at_fourth left = rw (e, base64_bytes) refl

-- Two digits give a byte.
first_byte :
    (x y : ℕ) (s : String)
    → x < 64
    → y < 64
    → base64_bytes first (String.◌∷◌ (base64_char x) (String.◌∷◌ (base64_char y) s))
      ≡ prepend (x * 4 + y / 16) (base64_bytes (third (y % 16)) s)
first_byte x y s hx hy =
    at_first (base64_char x) x (String.◌∷◌ (base64_char y) s) (base64_digit-base64_char x hx)
    ∙ at_second (base64_char y) y s (base64_digit-base64_char y hy) x

pub base64_bytes-to_base64 :
    (bytes : List ℕ) → Each IsByte bytes → base64_bytes first (to_base64 bytes) ≡ some bytes
unfolding base64_bytes
base64_bytes-to_base64 [] h = refl
base64_bytes-to_base64 (a ∷ []) h =
    let same : a / 4 * 4 + a % 4 * 16 / 16 ≡ a = omega arith in
    first_byte (a / 4) (a % 4 * 16) "==" (omega (arith, h.0)) (omega arith)
    ∙ ap (λ x. some (x ∷ [])) same
base64_bytes-to_base64 (a ∷ b ∷ []) h =
    let x = a % 4 * 16 + b / 16 in
    let y = b % 16 * 4 in
    let same : a / 4 * 4 + x / 16 ≡ a = omega (arith, h.1.0) in
    let same1 : x % 16 * 16 + y / 4 ≡ b = omega (arith, h.1.0) in
    first_byte (a / 4) x (String.◌∷◌ (base64_char y) "=") (omega (arith, h.0))
      (omega (arith, h.1.0))
    ∙ ap (prepend (a / 4 * 4 + x / 16))
        (at_third (base64_char y) y "=" (base64_digit-base64_char y (omega arith)) (x % 16))
    ∙ ap (λ v. some (v ∷ (x % 16 * 16 + y / 4) ∷ [])) same
    ∙ ap (λ v. some (a ∷ v ∷ [])) same1
base64_bytes-to_base64 (a ∷ b ∷ c ∷ bytes) h =
    let x = a % 4 * 16 + b / 16 in
    let y = b % 16 * 4 + c / 64 in
    let z = c % 64 in
    let rest = to_base64 bytes in
    let same : a / 4 * 4 + x / 16 ≡ a = omega (arith, h.1.0) in
    let same1 : x % 16 * 16 + y / 4 ≡ b = omega (arith, h.1.0, h.1.1.0) in
    let same2 : y % 4 * 64 + z ≡ c = omega (arith, h.1.1.0) in
    first_byte (a / 4) x (String.◌∷◌ (base64_char y) (String.◌∷◌ (base64_char z) rest))
      (omega (arith, h.0)) (omega (arith, h.1.0))
    ∙ ap (prepend (a / 4 * 4 + x / 16)) (
        at_third (base64_char y) y (String.◌∷◌ (base64_char z) rest)
          (base64_digit-base64_char y (omega (arith, h.1.1.0))) (x % 16)
        ∙ ap (prepend (x % 16 * 16 + y / 4)) (
            at_fourth (base64_char z) z rest (base64_digit-base64_char z (omega arith)) (y % 4)
            ∙ ap (prepend (y % 4 * 64 + z)) (base64_bytes-to_base64 bytes h.1.1.1)))
    ∙ (λ i. some (same i ∷ same1 i ∷ same2 i ∷ bytes))

pub text_length-to_hex : (bytes : List ℕ) → text_length (to_hex bytes) ≡ length bytes * 2
text_length-to_hex [] = omega arith
text_length-to_hex (b ∷ bytes) = omega (arith, text_length-to_hex bytes)

pub text_length-to_base64 :
    (bytes : List ℕ) → text_length (to_base64 bytes) ≡ (length bytes + 2) / 3 * 4
text_length-to_base64 [] = refl
text_length-to_base64 (a ∷ []) = refl
text_length-to_base64 (a ∷ b ∷ []) = refl
text_length-to_base64 (a ∷ b ∷ c ∷ bytes) = omega (arith, text_length-to_base64 bytes)

abbrev pub is_visible : Char → Bool
is_visible c = not (is_space (code c))

pub hex_char-plain :
    (n : ℕ)
    → n < 16
    → (is_visible (hex_char n) ≡ true)
      × ((code (hex_char n) == b'x' || code (hex_char n) == b'X') ≡ false)
hex_char-plain n h =
    let plain =
      below 16
        (λ i.
          is_visible (hex_char i) && not (code (hex_char i) == b'x' || code (hex_char i) == b'X'))
        n refl h in
    (ground (arith, plain), ground (arith, plain))

pub base64_char-visible : (n : ℕ) → n < 64 → is_visible (base64_char n) ≡ true
base64_char-visible n h = below 64 (λ i. is_visible (base64_char i)) n refl h

pub to_hex-solid : (bytes : List ℕ) → Each IsByte bytes → solid (to_hex bytes) ≡ true
to_hex-solid [] h = refl
to_hex-solid (b ∷ bytes) h =
    let high = (hex_char-plain (b / 16) (omega (arith, h.0))).0 in
    let low = (hex_char-plain (b % 16) (omega arith)).0 in rw (high, low) (to_hex-solid bytes h.1)

pub to_base64-solid : (bytes : List ℕ) → Each IsByte bytes → solid (to_base64 bytes) ≡ true
to_base64-solid [] h = refl
to_base64-solid (a ∷ []) h =
    rw
      (
        base64_char-visible (a / 4) (omega (arith, h.0)),
        base64_char-visible (a % 4 * 16) (omega arith),
      )
      refl
to_base64-solid (a ∷ b ∷ []) h =
    rw
      (
        base64_char-visible (a / 4) (omega (arith, h.0)),
        base64_char-visible (a % 4 * 16 + b / 16) (omega (arith, h.1.0)),
        base64_char-visible (b % 16 * 4) (omega arith),
      )
      refl
to_base64-solid (a ∷ b ∷ c ∷ bytes) h =
    rw
      (
        base64_char-visible (a / 4) (omega (arith, h.0)),
        base64_char-visible (a % 4 * 16 + b / 16) (omega (arith, h.1.0)),
        base64_char-visible (b % 16 * 4 + c / 64) (omega (arith, h.1.1.0)),
        base64_char-visible (c % 64) (omega arith),
      )
      (to_base64-solid bytes h.1.1.1)
