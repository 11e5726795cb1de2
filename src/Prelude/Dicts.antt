-- ===== src/Prelude/Dicts.antt =====
-- Python dictionaries with text keys: the entries in the order of their first insertion.
use Prim.Native.String.{String}
use mathlib.Core.Path.{◌≡◌, refl}
use mathlib.Core.Bool.{Bool}
use mathlib.Core.Option.{Option, none, some}
use mathlib.Core.List.{List, [], ◌∷◌, ◌++◌}
use native.Mathlib.Omega.{arith}
use text.Mathlib.Text.{◌==◌ as str_eq}
use text.Mathlib.TextEquality.{eq_iff}
use sev_certify.Prelude.Tests.{if◌then◌else◌}
use sev_certify.Prelude.Texts.{is_some}

abbrev pub Dict : Type 0 → Type 0
Dict V = List (String × V)

module _ {V : Type 0} where
  -- `d.get(key)`.
  abbrev pub get : String → Dict V → Option V
  get key [] = none
  get key (entry ∷ d) = if str_eq entry.0 key then some entry.1 else get key d

  -- `d[key] = value`: an old entry keeps its place.
  abbrev pub put : String → V → Dict V → Dict V
  put key value [] = (key, value) ∷ []
  put key value (entry ∷ d) =
      if str_eq entry.0 key then (entry.0, value) ∷ d else entry ∷ put key value d

  -- `key in d`.
  abbrev pub has : String → Dict V → Bool
  has key d = is_some (get key d)

  pub get-put :
      (key other : String) (value : V) (d : Dict V)
      → get other (put key value d) ≡ (if str_eq key other then some value else get other d)
  get-put key other value [] = refl
  get-put key other value (entry ∷ d) =
      ground (
        arith,
        eq_iff entry.0 key,
        eq_iff entry.0 other,
        eq_iff key other,
        get-put key other value d,
      )

  -- A new key is appended.
  pub put-new :
      (key : String) (value : V) (d : Dict V)
      → get key d ≡ none
      → put key value d ≡ d ++ (key, value) ∷ []
  put-new key value [] new = refl
  put-new key value (entry ∷ d) new = ground (arith, put-new key value d)

  pub put-last :
      (key : String) (old new : V) (d : Dict V)
      → get key d ≡ none
      → put key new (d ++ (key, old) ∷ []) ≡ d ++ (key, new) ∷ []
  put-last key old new [] fresh = ground (arith, eq_iff key key)
  put-last key old new (entry ∷ d) fresh = ground (arith, put-last key old new d)

  pub get-last :
      (key : String) (value : V) (d : Dict V)
      → get key d ≡ none
      → get key (d ++ (key, value) ∷ []) ≡ some value
  get-last key value [] fresh = ground (arith, eq_iff key key)
  get-last key value (entry ∷ d) fresh = ground (arith, get-last key value d)

  -- Each key is new to the entries before it.
  abbrev pub AllNewTo : Dict V → Dict V → Type 0
  AllNewTo before [] = Unit
  AllNewTo before (entry ∷ d) = (get entry.0 before ≡ none) × AllNewTo (before ++ entry ∷ []) d
