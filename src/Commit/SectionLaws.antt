-- ===== src/Commit/SectionLaws.antt =====
-- `_parse_tcb_sections` reads back what is printed in the format that its docstring shows.
use Prim.Native.String.{◌++◌}
use text.Mathlib.TextLemmas.{nil-append, cons-append}
use mathlib.Core.List.{◌++◌ as append, append-nil, append_assoc}
use sev_certify.Prelude.{
  String, true, List, [], ◌∷◌, none, some, ◌≡◌, refl, sym, ap, ◌∙◌, arith, map, Each,
}
use sev_certify.Prelude.TextLaws.{solid}
use sev_certify.Prelude.Lines.{one_line, unlines, split_lines-unlines, AllOneLine}
use sev_certify.Prelude.Dicts.{Dict, get, put-new, AllNewTo}
use sev_certify.Commit.Sections.{Parsing, parse_line, parse_lines, parse_tcb_sections}
use sev_certify.Commit.LineLaws.{
  all_word, IsName, key_chars, field_line, header_line, tail, IsEntry, parse_line-header_line,
  within, parse_line-field_line,
}

-- A section of the output: its header, and a line for each of its fields.
abbrev section_lines : String × Dict String → List String
section_lines section = header_line section.0 ∷ map field_line section.1

abbrev pub printed_lines : Dict (Dict String) → List String
printed_lines [] = []
printed_lines (section ∷ sections) = append (section_lines section) (printed_lines sections)

parse_lines-append :
    (st : Parsing) (xs ys : List String)
    → parse_lines st (append xs ys) ≡ parse_lines (parse_lines st xs) ys
unfolding parse_lines
parse_lines-append st [] ys = refl
parse_lines-append st (x ∷ xs) ys = parse_lines-append (parse_line st x) xs ys

parse_lines-fields :
    (before : Dict (Dict String)) (name : String) (acc fields : Dict String)
    → get name before ≡ none
    → Each IsEntry fields
    → AllNewTo acc fields
    → parse_lines (within before name acc) (map field_line fields)
      ≡ within before name (append acc fields)
unfolding parse_lines
parse_lines-fields before name acc [] new good fresh =
    ap (λ d. within before name d) (sym (append-nil acc))
parse_lines-fields before name acc (entry ∷ fields) new good fresh =
    let read =
      parse_line-field_line before name acc entry.0 entry.1 good.0.0 good.0.1 new fresh.0 in
    ap (λ st. parse_lines st (map field_line fields)) read
    ∙ parse_lines-fields before name (append acc (entry ∷ [])) fields new good.1 fresh.1
    ∙ ap (λ d. within before name d) (append_assoc acc (entry ∷ []) fields)

-- What a section must be so that it can be read back.
abbrev pub IsSection : String × Dict String → Type 0
IsSection section = IsName section.0 × Each IsEntry section.1 × AllNewTo [] section.1

parse_lines-section :
    (st : Parsing) (section : String × Dict String)
    → IsSection section
    → get section.0 st.sections ≡ none
    → parse_lines st (section_lines section) ≡ within st.sections section.0 section.1
unfolding parse_lines
parse_lines-section st section good new =
    let lines = map field_line section.1 in
    ap (λ st. parse_lines st lines) (parse_line-header_line st section.0 good.0)
    ∙ ap (λ d. parse_lines (record { sections = d; current = some section.0 }) lines)
        (put-new section.0 [] st.sections new)
    ∙ parse_lines-fields st.sections section.0 [] section.1 new good.1 good.2

parse_lines-printed :
    (st : Parsing) (sections : Dict (Dict String))
    → Each IsSection sections
    → AllNewTo st.sections sections
    → (parse_lines st (printed_lines sections)).sections ≡ append st.sections sections
unfolding parse_lines
parse_lines-printed st [] good new = sym (append-nil st.sections)
parse_lines-printed st (section ∷ sections) good new =
    let next = within st.sections section.0 section.1 in
    ap (λ st. st.sections) (parse_lines-append st (section_lines section) (printed_lines sections))
    ∙ ap (λ st. (parse_lines st (printed_lines sections)).sections)
        (parse_lines-section st section good.0 new.0)
    ∙ parse_lines-printed next sections good.1 new.1
    ∙ append_assoc st.sections (section ∷ []) sections

one_line-append : (a b : String) → one_line a ≡ true → one_line b ≡ true → one_line (a ++ b) ≡ true
one_line-append String.[] b p q = rw (nil-append b) q
one_line-append (String.◌∷◌ c a) b p q =
    rw (cons-append c a b) (ground (arith, one_line-append a b))

all_word-one_line : (name : String) → all_word name ≡ true → one_line name ≡ true
all_word-one_line String.[] h = refl
all_word-one_line (String.◌∷◌ c s) h = ground (arith, all_word-one_line s)

key_chars-one_line : (key : String) → key_chars key ≡ true → one_line key ≡ true
key_chars-one_line String.[] h = refl
key_chars-one_line (String.◌∷◌ c s) h = ground (arith, key_chars-one_line s)

solid-one_line : (value : String) → solid value ≡ true → one_line value ≡ true
solid-one_line String.[] h = refl
solid-one_line (String.◌∷◌ c s) h = ground (arith, solid-one_line s)

field_line-one_line : (entry : String × String) → IsEntry entry → one_line (field_line entry) ≡ true
field_line-one_line entry good =
    one_line-append entry.0 (tail entry.1) (key_chars-one_line entry.0 good.0.1)
      (solid-one_line entry.1 good.1.1)

field_lines-AllOneLine :
    (fields : Dict String) → Each IsEntry fields → AllOneLine (map field_line fields)
field_lines-AllOneLine [] good = tt
field_lines-AllOneLine (entry ∷ fields) good =
    (field_line-one_line entry good.0, field_lines-AllOneLine fields good.1)

append-AllOneLine :
    (xs ys : List String) → AllOneLine xs → AllOneLine ys → AllOneLine (append xs ys)
append-AllOneLine [] ys p q = q
append-AllOneLine (x ∷ xs) ys p q = (p.0, append-AllOneLine xs ys p.1 q)

printed_lines-AllOneLine :
    (sections : Dict (Dict String)) → Each IsSection sections → AllOneLine (printed_lines sections)
printed_lines-AllOneLine [] good = tt
printed_lines-AllOneLine (section ∷ sections) good =
    append-AllOneLine (section_lines section) (printed_lines sections)
      (
        one_line-append section.0 " TCB: TCB Version:" (all_word-one_line section.0 good.0.0.1)
            refl,
        field_lines-AllOneLine section.1 good.0.1,
      )
      (printed_lines-AllOneLine sections good.1)

-- The output that prints sections with distinct names, each a word, and in each section distinct keys
-- without colons and values without blanks, is read back as exactly these sections.
pub parse_tcb_sections-unlines :
    (sections : Dict (Dict String))
    → Each IsSection sections
    → AllNewTo [] sections
    → parse_tcb_sections (unlines (printed_lines sections)) ≡ sections
unfolding parse_tcb_sections
parse_tcb_sections-unlines sections good new =
    ap (λ lines. (parse_lines (record { sections = []; current = none }) lines).sections)
      (split_lines-unlines (printed_lines sections) (printed_lines-AllOneLine sections good))
    ∙ parse_lines-printed (record { sections = []; current = none }) sections good new
