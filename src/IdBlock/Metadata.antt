-- ===== src/IdBlock/Metadata.antt =====
-- cvm_props.py: the ID_BLOCK_* environment variables.
use Prim.Native.Char.{code}
use mathlib.Core.List.{◌++◌ as append}
use sev_certify.Prelude.{
  ℕ, ◌+◌, ◌-◌, ◌*◌, String, Bool, true, false, ◌||◌, List, [], ◌∷◌, Option, none, some, Result, ok,
  err, ◌>>=◌, ◌==◌, ltb, length, replicate, if◌then◌else◌, ℤ, pos, negsuc, signed,
}
use sev_certify.Prelude.Texts.{is_empty, strip, int}
use sev_certify.Prelude.Bytes.{hex_digit}

pub data MetadataError : Type 0 where
  not_ascii too_long not_integer negative : (variable : String) → MetadataError

pub record IdBlockMetadata : Type 0 where
  pub family_id : String
  pub image_id : String
  pub guest_svn : ℕ
  pub policy : ℕ

abbrev pub id_field_size : ℕ
id_field_size = 16

-- `s.encode("ascii")`.
unfoldable pub ascii_bytes : String → Option (List ℕ)
ascii_bytes String.[] = some []
ascii_bytes (String.◌∷◌ c s) = elim (ascii_bytes s) [
  | none ↦ none
  | some bytes ↦ if ltb (code c) 128 then some (code c ∷ bytes) else none
]

-- `bytes.ljust(n, b"\x00")`.
abbrev pub ljust : ℕ → List ℕ → List ℕ
ljust n bytes = append bytes (replicate (n - length bytes) 0)

abbrev or_none : Option (List ℕ) → List ℕ
or_none none = []
or_none (some bytes) = bytes

-- `family_id_bytes` and `image_id_bytes`; they are read of a field that is ASCII.
unfoldable pub id_bytes : String → List ℕ
unfolding ascii_bytes
id_bytes field = ljust id_field_size (or_none (ascii_bytes field))

abbrev value_or : String → Option String → String
value_or default none = default
value_or default (some value) = value

abbrev pub checked_field : (variable value : String) → Option (List ℕ) → Result MetadataError String
checked_field variable value none = err (not_ascii variable)
checked_field variable value (some encoded) =
    if ltb id_field_size (length encoded) then err (too_long variable) else ok value

module _ (environ : String → Option String) where
  unfoldable pub read_id_field : (variable default : String) → Result MetadataError String
  unfolding ascii_bytes
  read_id_field variable default =
      let value = value_or default (environ variable) in
      checked_field variable value (ascii_bytes value)

-- The digits of a number in a base up to 16, with single underscores between digits; `fresh` says that
-- a digit must come next.
unfoldable pub digits_in : (base : ℕ) → Bool → ℕ → String → Option ℕ
digits_in base true n String.[] = none
digits_in base false n String.[] = some n
digits_in base fresh n (String.◌∷◌ c s) =
    let skip = digits_in base true n s in
    elim (hex_digit (code c)) [
      | some d ↦
          let more = digits_in base false (n * base + d) s in if ltb d base then more else none
      | none ↦ if code c == b'_' then (if fresh then none else skip) else none
    ]

abbrev only_zero : Option ℕ → Option ℕ
only_zero none = none
only_zero (some n) = if n == 0 then some 0 else none

-- A prefix may be followed by one underscore.
abbrev after_prefix : ℕ → String → Option ℕ
after_prefix base s = digits_in base false 0 s

abbrev nonempty_prefix : ℕ → String → Option ℕ
nonempty_prefix base s = if is_empty s then none else after_prefix base s

-- What follows a leading zero: a prefix, or zeros alone.
abbrev after_zero : String → Option ℕ
after_zero String.[] = some 0
after_zero (String.◌∷◌ c s) =
    if code c == b'x' || code c == b'X'
    then nonempty_prefix 16 s
    else if code c == b'o' || code c == b'O'
    then nonempty_prefix 8 s
    else if code c == b'b' || code c == b'B'
    then nonempty_prefix 2 s
    else only_zero (digits_in 10 false 0 (String.◌∷◌ c s))

abbrev magnitude : String → Option ℕ
magnitude String.[] = none
magnitude (String.◌∷◌ c s) =
    if code c == b'0' then after_zero s else digits_in 10 true 0 (String.◌∷◌ c s)

abbrev with_sign : Bool → Option ℕ → Option ℤ
with_sign minus none = none
with_sign minus (some n) = some (signed minus n)

abbrev int_text : String → Option ℤ
int_text String.[] = none
int_text (String.◌∷◌ c s) =
    if code c == b'-'
    then with_sign true (magnitude s)
    else if code c == b'+'
    then with_sign false (magnitude s)
    else with_sign false (magnitude (String.◌∷◌ c s))

-- `int(s, 0)`.
unfoldable pub int_any_base : String → Option ℤ
unfolding digits_in strip
int_any_base s = int_text (strip s)

abbrev pub natural : (variable : String) → Option ℤ → Result MetadataError ℕ
natural variable none = err (not_integer variable)
natural variable (some (pos n)) = ok n
natural variable (some (negsuc n)) = err (negative variable)

module _ (environ : String → Option String) where
  -- `base` is 10, or 0 for any.
  unfoldable pub read_int : (variable default : String) → (base : ℕ) → Result MetadataError ℕ
  unfolding int int_any_base
  read_int variable default base =
      let raw = value_or default (environ variable) in
      natural variable (if base == 10 then int raw else int_any_base raw)

  unfoldable pub read_id_block_metadata : Result MetadataError IdBlockMetadata
  unfolding read_id_field read_int
  read_id_block_metadata = do
    family_id ← read_id_field environ "ID_BLOCK_FAMILY_ID" "sev-certify-fam0"
    image_id ← read_id_field environ "ID_BLOCK_IMAGE_ID" "sev-certify-img0"
    guest_svn ← read_int "ID_BLOCK_GUEST_SVN" "48" 10
    policy ← read_int "ID_BLOCK_POLICY" "0xb0000" 0
    ok (record {
      family_id = family_id;
      image_id = image_id;
      guest_svn = guest_svn;
      policy = policy;
    })
