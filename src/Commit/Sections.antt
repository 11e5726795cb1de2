-- ===== src/Commit/Sections.antt =====
-- `_parse_tcb_sections`: the two regular expressions, matched as Python's `re` does, and the loop over
-- the lines. `\w` is taken on ASCII.
use Prim.Native.Char.{Char, code}
use sev_certify.Prelude.{
  ℕ, String, Bool, ◌&&◌, ◌||◌, List, [], ◌∷◌, Option, none, some, if◌then◌else◌, ◌==◌, leb,
}
use sev_certify.Prelude.Texts.{is_empty, is_some, is_space, lstrip, strip_prefix}
use sev_certify.Prelude.Lines.{split_lines}
use sev_certify.Prelude.Dicts.{Dict, get, put}

abbrev pub is_word : ℕ → Bool
is_word c =
    (leb b'0' c && leb c b'9')
    || (leb b'A' c && leb c b'Z')
    || (leb b'a' c && leb c b'z')
    || c == b'_'

abbrev on_text : Char → Option String → Option String
on_text c none = none
on_text c (some s) = some (String.◌∷◌ c s)

-- `[\w ]*?) TCB:`, the shortest prefix that " TCB:" follows.
unfoldable pub header_rest : String → Option String
unfolding strip_prefix
header_rest String.[] = none
header_rest (String.◌∷◌ c s) =
    let rest = header_rest s in
    if is_some (strip_prefix " TCB:" (String.◌∷◌ c s))
    then some ""
    else if is_word (code c) || code c == 32
    then on_text c rest
    else none

-- `(\w[\w ]*?) TCB:` at the start of a line.
unfoldable pub header_name : String → Option String
unfolding header_rest
header_name String.[] = none
header_name (String.◌∷◌ c s) = if is_word (code c) then on_text c (header_rest s) else none

-- `\S+`, as far as it goes.
unfoldable pub token : String → String
token String.[] = ""
token (String.◌∷◌ c s) = if is_space (code c) then "" else String.◌∷◌ c (token s)

abbrev nonempty : String → Option String
nonempty s = if is_empty s then none else some s

-- `\s+(\S+)`.
unfoldable pub spaced_token : String → Option String
unfolding lstrip token
spaced_token String.[] = none
spaced_token (String.◌∷◌ c s) = if is_space (code c) then nonempty (token (lstrip s)) else none

-- `:\s+(\S+)`.
unfoldable pub value_at : String → Option String
unfolding spaced_token
value_at String.[] = none
value_at (String.◌∷◌ c s) = if code c == b':' then spaced_token s else none

abbrev on_key : Char → Option (String × String) → Option (String × String)
on_key c none = none
on_key c (some (k, v)) = some (String.◌∷◌ c k, v)

-- The shortest key that a value follows, from its second character on.
unfoldable pub key_rest : String → Option (String × String)
unfolding value_at
key_rest String.[] = none
key_rest (String.◌∷◌ c s) = elim (value_at (String.◌∷◌ c s)) [
  | some v ↦ some ("", v)
  | none ↦ on_key c (key_rest s)
]

unfoldable pub key_at : String → Option (String × String)
unfolding key_rest
key_at String.[] = none
key_at (String.◌∷◌ c s) = on_key c (key_rest s)

-- The key behind as many blanks as possible, and behind fewer only if that fails.
unfoldable pub key_behind : String → Option (String × String)
unfolding key_at
key_behind String.[] = none
key_behind (String.◌∷◌ c s) =
    let here = key_at (String.◌∷◌ c s) in
    if is_space (code c)
    then (elim (key_behind s) [ some entry ↦ some entry | none ↦ here ])
    else here

-- `\s+(.+?):\s+(\S+)` at the start of a line.
unfoldable pub field_entry : String → Option (String × String)
unfolding key_behind
field_entry String.[] = none
field_entry (String.◌∷◌ c s) = if is_space (code c) then key_behind s else none

-- `sections` and `current`, the key of the dictionary that `current` refers to.
pub record Parsing : Type 0 where
  pub sections : Dict (Dict String)
  pub current : Option String

abbrev pub fields_of : Option (Dict String) → Dict String
fields_of none = []
fields_of (some fields) = fields

abbrev pub add_field : Parsing → Option String → Option (String × String) → Parsing
add_field st (some name) (some (key, value)) = record st {
  sections = put name (put key value (fields_of (get name st.sections))) st.sections;
}
add_field st name entry = st

abbrev pub apply_line : Parsing → Option String → Option (String × String) → Parsing
apply_line st (some name) entry = record { sections = put name [] st.sections; current = some name }
apply_line st none entry = add_field st st.current entry

unfoldable pub parse_line : Parsing → String → Parsing
unfolding header_name field_entry
parse_line st line = apply_line st (header_name line) (field_entry line)

unfoldable pub parse_lines : Parsing → List String → Parsing
unfolding parse_line
parse_lines st [] = st
parse_lines st (line ∷ lines) = parse_lines (parse_line st line) lines

unfoldable pub parse_tcb_sections : String → Dict (Dict String)
unfolding parse_lines split_lines
parse_tcb_sections output =
    (parse_lines (record { sections = []; current = none }) (split_lines output)).sections
