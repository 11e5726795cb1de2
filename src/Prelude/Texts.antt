-- ===== src/Prelude/Texts.antt =====
-- The methods of Python's `str` that the program uses, on native text, character by character.
-- `int` reads ASCII digits; the other digits of Unicode are left out.
use Prim.Native.Char.{code}
use Prim.Native.String.{String, ◌++◌}
use Prim.Native.Nat.{ℕ, ◌+◌, ◌-◌, ◌*◌}
use mathlib.Core.Bool.{Bool, true, false, ◌&&◌, ◌||◌}
use mathlib.Core.Option.{Option, none, some}
use mathlib.Core.List.{List, [], ◌∷◌}
use sev_certify.Prelude.Tests.{◌==◌, leb, if◌then◌else◌}
use sev_certify.Prelude.Ints.{ℤ, pos, signed}

abbrev pub is_empty : String → Bool
is_empty String.[] = true
is_empty (String.◌∷◌ c s) = false

-- `s.startswith(t)`, and what stands behind the prefix.
unfoldable pub strip_prefix : String → String → Option String
strip_prefix String.[] s = some s
strip_prefix (String.◌∷◌ c t) String.[] = none
strip_prefix (String.◌∷◌ c t) (String.◌∷◌ d s) = if code c == code d then strip_prefix t s else none

abbrev pub is_some {ℓ} : {A : Type ℓ} → Option A → Bool
is_some none = false
is_some (some a) = true

-- `t in s`.
unfoldable pub contains : String → String → Bool
unfolding strip_prefix
contains t String.[] = is_some (strip_prefix t String.[])
contains t (String.◌∷◌ c s) = is_some (strip_prefix t (String.◌∷◌ c s)) || contains t s

-- `s.partition(c)`: before the first `c`, whether there was one, and behind it.
unfoldable pub partition : ℕ → String → String × Bool × String
partition c String.[] = (String.[], false, String.[])
partition c (String.◌∷◌ x s) =
    let (before, sep, after) = partition c s in
    if code x == c then (String.[], true, s) else (String.◌∷◌ x before, sep, after)

-- `s.split(c)`, as the first part and the rest.
unfoldable pub split_parts : ℕ → String → String × List String
split_parts c String.[] = (String.[], [])
split_parts c (String.◌∷◌ x s) =
    let (part, parts) = split_parts c s in
    if code x == c then (String.[], part ∷ parts) else (String.◌∷◌ x part, parts)

unfoldable pub split : ℕ → String → List String
unfolding split_parts
split c s = let (part, parts) = split_parts c s in part ∷ parts

abbrev pub is_space : ℕ → Bool
is_space c = c == 32 || (leb 9 c && leb c 13) || (leb 28 c && leb c 31)

unfoldable pub lstrip : String → String
lstrip String.[] = String.[]
lstrip (String.◌∷◌ c s) = if is_space (code c) then lstrip s else String.◌∷◌ c s

unfoldable pub rstrip : String → String
rstrip String.[] = String.[]
rstrip (String.◌∷◌ c s) =
    let rest = rstrip s in
    if is_space (code c) && is_empty rest then String.[] else String.◌∷◌ c rest

unfoldable pub strip : String → String
unfolding lstrip rstrip
strip s = lstrip (rstrip s)

-- `s.replace(a, b)` at a single character `a`.
unfoldable pub replace_char : ℕ → String → String → String
replace_char a b String.[] = String.[]
replace_char a b (String.◌∷◌ c s) =
    let rest = replace_char a b s in if code c == a then b ++ rest else String.◌∷◌ c rest

-- The digits of `int(s)`, with single underscores between digits. `fresh` says that a digit must
-- come next.
unfoldable pub digits_from : Bool → ℕ → String → Option ℕ
digits_from true n String.[] = none
digits_from false n String.[] = some n
digits_from fresh n (String.◌∷◌ c s) =
    let more = digits_from false (n * 10 + (code c - 48)) s in
    let skip = digits_from true n s in
    if leb 48 (code c) && leb (code c) 57
    then more
    else if code c == b'_'
    then (if fresh then none else skip)
    else none

unfoldable pub int_body : String → Option ℤ
unfolding digits_from
int_body String.[] = none
int_body (String.◌∷◌ c s) =
    let negative = digits_from true 0 s in
    if code c == b'-'
    then elim negative [ none ↦ none | some n ↦ some (signed true n) ]
    else if code c == b'+'
    then elim negative [ none ↦ none | some n ↦ some (pos n) ]
    else elim (digits_from true 0 (String.◌∷◌ c s)) [ none ↦ none | some n ↦ some (pos n) ]

-- `int(s)`; `none` is the ValueError.
unfoldable pub int : String → Option ℤ
unfolding int_body strip
int s = int_body (strip s)
