-- ===== src/Harness/Shell.antt =====
-- `shlex.quote` and `shlex.join` of the standard library, as runner.py and vm_profile.py use them.
use Prim.Native.Char.{code}
use Prim.Native.String.{◌++◌}
use sev_certify.Prelude.{
  ℕ, String, Bool, true, ◌&&◌, ◌||◌, List, [], ◌∷◌, if◌then◌else◌, ◌==◌, leb, any, map,
}
use sev_certify.Prelude.Texts.{is_empty}

abbrev is_alnum : ℕ → Bool
is_alnum c = (leb 48 c && leb c 57) || (leb 65 c && leb c 90) || (leb 97 c && leb c 122)

-- The characters that need no quotes: letters, digits and _ @ % + = : , . / -
unfoldable pub is_safe : String → Bool
is_safe String.[] = true
is_safe (String.◌∷◌ c s) =
    (is_alnum (code c)
      || any (λ d. code c == d) (95 ∷ 64 ∷ 37 ∷ 43 ∷ 61 ∷ 58 ∷ 44 ∷ 46 ∷ 47 ∷ 45 ∷ []))
    && is_safe s

unfoldable pub escape_quotes : String → String
escape_quotes String.[] = String.[]
escape_quotes (String.◌∷◌ c s) =
    let rest = escape_quotes s in if code c == 39 then "'\"'\"'" ++ rest else String.◌∷◌ c rest

unfoldable pub quote : String → String
unfolding is_safe escape_quotes
quote s = if is_empty s then "''" else if is_safe s then s else "'" ++ (escape_quotes s ++ "'")

-- `" ".join(...)`.
unfoldable pub join_words : List String → String
join_words [] = ""
join_words (w ∷ []) = w
join_words (w ∷ v ∷ ws) = w ++ (" " ++ join_words (v ∷ ws))

unfoldable pub join : List String → String
unfolding quote join_words
join args = join_words (map quote args)

-- Python's `dir / name` for a relative name.
unfoldable pub path_join : String → String → String
path_join dir name = dir ++ ("/" ++ name)
