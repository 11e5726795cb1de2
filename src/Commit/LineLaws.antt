-- ===== src/Commit/LineLaws.antt =====
-- `_parse_tcb_sections`: one line of the printed format is read back.
use Prim.Native.Char.{code}
use Prim.Native.String.{◌++◌}
use text.Mathlib.TextLemmas.{nil-append, cons-append}
use mathlib.Core.List.{◌++◌ as append}
use sev_certify.Prelude.{
  String, Bool, true, false, ◌&&◌, not, [], ◌∷◌, none, some, ◌≡◌, refl, ap, ◌∙◌, arith, ◌==◌,
}
use sev_certify.Prelude.Texts.{is_empty, is_space, lstrip}
use sev_certify.Prelude.TextLaws.{solid}
use sev_certify.Prelude.Lines.{one_line}
use sev_certify.Prelude.Dicts.{Dict, get, put, put-new, put-last, get-last}
use sev_certify.Commit.Sections.{
  apply_line, is_word, header_rest, header_name, token, spaced_token, value_at, key_rest, key_at,
  key_behind, field_entry, Parsing, fields_of, add_field, parse_line,
}

-- A nonempty name of letters, digits and underscores.
abbrev pub all_word : String → Bool
all_word String.[] = true
all_word (String.◌∷◌ c s) = is_word (code c) && all_word s

abbrev pub IsName : String → Type 0
IsName s = (is_empty s ≡ false) × (all_word s ≡ true)

-- A key without a colon and without line boundaries, that starts with no blank.
abbrev pub key_chars : String → Bool
key_chars String.[] = true
key_chars (String.◌∷◌ c s) = not (code c == b':') && one_line (String.◌∷◌ c "") && key_chars s

abbrev pub starts_blank : String → Bool
starts_blank String.[] = true
starts_blank (String.◌∷◌ c s) = is_space (code c)

abbrev pub IsKey : String → Type 0
IsKey s = (starts_blank s ≡ false) × (key_chars s ≡ true)

-- A nonempty value without blanks.
abbrev pub IsValue : String → Type 0
IsValue s = (is_empty s ≡ false) × (solid s ≡ true)

-- "  Microcode:   25"
abbrev pub field_line : String × String → String
field_line entry = String.◌∷◌ " " (
    String.◌∷◌ " "
      (entry.0 ++ String.◌∷◌ ":" (String.◌∷◌ " " (String.◌∷◌ " " (String.◌∷◌ " " entry.1)))))

-- "Reported TCB: TCB Version:"
abbrev pub header_line : String → String
header_line name = name ++ " TCB: TCB Version:"

header_rest-append :
    (name : String) → all_word name ≡ true → header_rest (header_line name) ≡ some name
unfolding header_rest
header_rest-append String.[] h = refl
header_rest-append (String.◌∷◌ c s) h =
    rw (cons-append c s " TCB: TCB Version:") (ground (arith, header_rest-append s))

header_name-header_line : (name : String) → IsName name → header_name (header_line name) ≡ some name
unfolding header_name
header_name-header_line String.[] h = absurd (cc h.0)
header_name-header_line (String.◌∷◌ c s) h =
    rw (cons-append c s " TCB: TCB Version:") (ground (arith, header_rest-append s))

token-solid : (v : String) → solid v ≡ true → token v ≡ v
unfolding token
token-solid String.[] h = refl
token-solid (String.◌∷◌ c v) h = ground (arith, token-solid v)

lstrip-solid : (v : String) → IsValue v → lstrip v ≡ v
unfolding lstrip
lstrip-solid String.[] h = refl
lstrip-solid (String.◌∷◌ c v) h = ground arith

value_behind :
    (v : String)
    → IsValue v
    → value_at (String.◌∷◌ ":" (String.◌∷◌ " " (String.◌∷◌ " " (String.◌∷◌ " " v)))) ≡ some v
unfolding value_at spaced_token lstrip
value_behind v h = rw (lstrip-solid v h) (rw (token-solid v h.1) (rw h.0 refl))

abbrev pub tail : String → String
tail v = String.◌∷◌ ":" (String.◌∷◌ " " (String.◌∷◌ " " (String.◌∷◌ " " v)))

key_rest-append :
    (k v : String) → key_chars k ≡ true → IsValue v → key_rest (k ++ tail v) ≡ some (k, v)
unfolding key_rest value_at
key_rest-append String.[] v h good = rw (nil-append (tail v)) (rw (value_behind v good) refl)
key_rest-append (String.◌∷◌ c k) v h good =
    rw (cons-append c k (tail v)) (ground (arith, key_rest-append k v))

abbrev pub IsEntry : String × String → Type 0
IsEntry entry = IsKey entry.0 × IsValue entry.1

key_behind-append : (k v : String) → IsKey k → IsValue v → key_behind (k ++ tail v) ≡ some (k, v)
unfolding key_behind key_at
key_behind-append String.[] v h good = absurd (cc h.0)
key_behind-append (String.◌∷◌ c k) v h good =
    rw (cons-append c k (tail v)) (ground (arith, key_rest-append k v))

field_entry-field_line :
    (k v : String) → IsKey k → IsValue v → field_entry (field_line (k, v)) ≡ some (k, v)
unfolding field_entry key_behind
field_entry-field_line k v h good = rw (key_behind-append k v h good) refl

header_name-field_line : (entry : String × String) → header_name (field_line entry) ≡ none
unfolding header_name
header_name-field_line entry = refl

pub parse_line-header_line :
    (st : Parsing) (name : String)
    → IsName name
    → parse_line st (header_line name)
      ≡ record { sections = put name [] st.sections; current = some name }
unfolding parse_line
parse_line-header_line st name h =
    ap (λ header. apply_line st header (field_entry (header_line name)))
      (header_name-header_line name h)

-- In the section that was opened last.
abbrev pub within : Dict (Dict String) → String → Dict String → Parsing
within before name fields = record {
  sections = append before ((name, fields) ∷ []);
  current = some name;
}

pub parse_line-field_line :
    (before : Dict (Dict String)) (name : String) (fields : Dict String) (k v : String)
    → IsKey k
    → IsValue v
    → get name before ≡ none
    → get k fields ≡ none
    → parse_line (within before name fields) (field_line (k, v))
      ≡ within before name (append fields ((k, v) ∷ []))
unfolding parse_line
parse_line-field_line before name fields k v h good new fresh =
    let st : Parsing = within before name fields in
    let read : parse_line st (field_line (k, v)) ≡ add_field st (some name) (some (k, v)) =
      ap (λ entry. apply_line st none entry) (field_entry-field_line k v h good) in
    let found : fields_of (get name st.sections) ≡ fields =
      ap fields_of (get-last name fields before new) in
    let stored : put name (put k v fields) st.sections
        ≡ append before ((name, put k v fields) ∷ []) =
      put-last name fields (put k v fields) before new in
    let longer : put k v fields ≡ append fields ((k, v) ∷ []) = put-new k v fields fresh in
    read
    ∙ ap (λ d. record st { sections = put name (put k v d) st.sections }) found
    ∙ ap (λ d. record st { sections = d }) stored
    ∙ ap (λ d. within before name d) longer
