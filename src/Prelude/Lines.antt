-- ===== src/Prelude/Lines.antt =====
-- `str.splitlines`, on the line boundaries below 128.
use Prim.Native.Char.{Char, code}
use Prim.Native.String.{String, ◌++◌}
use Prim.Native.Nat.{ℕ}
use mathlib.Core.Path.{◌≡◌, refl, ap, ◌∙◌}
use mathlib.Core.Bool.{Bool, true, false, ◌&&◌, ◌||◌, not}
use mathlib.Core.List.{List, [], ◌∷◌}
use native.Mathlib.Omega.{arith}
use text.Mathlib.TextLemmas.{nil-append, cons-append}
use sev_certify.Prelude.Tests.{◌==◌, leb, if◌then◌else◌}

abbrev pub is_break : ℕ → Bool
is_break c = (leb 10 c && leb c 13) || (leb 28 c && leb c 30)

abbrev starts_with_newline : String → Bool
starts_with_newline String.[] = false
starts_with_newline (String.◌∷◌ c s) = code c == 10

abbrev on_first : Char → List String → List String
on_first c [] = String.◌∷◌ c String.[] ∷ []
on_first c (line ∷ lines) = String.◌∷◌ c line ∷ lines

-- A carriage return before a newline is part of that one boundary.
unfoldable pub split_lines : String → List String
split_lines String.[] = []
split_lines (String.◌∷◌ c s) =
    let rest = split_lines s in
    if code c == 13 && starts_with_newline s
    then rest
    else if is_break (code c)
    then String.[] ∷ rest
    else on_first c rest

-- No line boundary in a text.
abbrev pub one_line : String → Bool
one_line String.[] = true
one_line (String.◌∷◌ c s) = not (is_break (code c)) && one_line s

-- Each line with a newline behind it.
abbrev pub unlines : List String → String
unlines [] = String.[]
unlines (line ∷ lines) = line ++ String.◌∷◌ "\n" (unlines lines)

abbrev pub AllOneLine : List String → Type 0
AllOneLine [] = Unit
AllOneLine (line ∷ lines) = (one_line line ≡ true) × AllOneLine lines

split_line :
    (line rest : String)
    → one_line line ≡ true
    → split_lines (line ++ String.◌∷◌ "\n" rest) ≡ line ∷ split_lines rest
unfolding split_lines
split_line String.[] rest h = rw (nil-append (String.◌∷◌ "\n" rest)) refl
split_line (String.◌∷◌ c line) rest h =
    rw (cons-append c line (String.◌∷◌ "\n" rest)) (ground (arith, split_line line rest))

-- Splitting takes the newlines off again.
pub split_lines-unlines :
    (lines : List String) → AllOneLine lines → split_lines (unlines lines) ≡ lines
unfolding split_lines
split_lines-unlines [] h = refl
split_lines-unlines (line ∷ lines) h =
    split_line line (unlines lines) h.0 ∙ ap (λ ls. line ∷ ls) (split_lines-unlines lines h.1)
