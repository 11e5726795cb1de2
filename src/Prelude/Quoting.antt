-- ===== src/Prelude/Quoting.antt =====
-- `shlex.quote`, `shlex.join` and `str.join`.
use Prim.Native.Char.{code}
use Prim.Native.Nat.{ℕ}
use Prim.Native.String.{String, ◌++◌}
use mathlib.Core.Bool.{Bool, true, ◌&&◌, ◌||◌}
use mathlib.Core.List.{List, [], ◌∷◌, map}
use sev_certify.Prelude.Tests.{◌==◌, leb, if◌then◌else◌}
use sev_certify.Prelude.Texts.{is_empty, replace_char}

-- `sep.join(parts)`.
abbrev pub join : String → List String → String
join sep [] = ""
join sep (part ∷ []) = part
join sep (part ∷ parts) = part ++ (sep ++ join sep parts)

-- `[\w@%+=:,./-]`, with `\w` on ASCII: the characters that need no quotes.
abbrev is_safe : ℕ → Bool
is_safe c =
    (leb b'0' c && leb c b'9')
    || (leb b'A' c && leb c b'Z')
    || (leb b'a' c && leb c b'z')
    || c == b'_'
    || c == b'@'
    || c == b'%'
    || c == b'+'
    || c == b'='
    || c == b':'
    || c == b','
    || c == b'.'
    || c == b'/'
    || c == b'-'

abbrev all_safe : String → Bool
all_safe String.[] = true
all_safe (String.◌∷◌ c s) = is_safe (code c) && all_safe s

abbrev pub shell_quote : String → String
shell_quote s =
    if is_empty s
    then "''"
    else if all_safe s
    then s
    else "'" ++ (replace_char b'\'' "'\"'\"'" s ++ "'")

abbrev pub shell_join : List String → String
shell_join args = join " " (map shell_quote args)
