-- ===== src/Prelude/Results.antt =====
-- Python functions that return or raise: the value, or the exception.
use mathlib.Core.Path.{◌≡◌, refl}
use mathlib.Core.Logic.{◌⊎◌, inl, inr}
use mathlib.Core.Bool.{Bool, true, false}

pub data Result {ℓ} (E A : Type ℓ) : Type ℓ where
  ok : A → Result E A
  err : E → Result E A

infixl 5 ◌>>◌
abbrev pub ◌>>◌ {ℓ} : {E B : Type ℓ} → Result E (Unit {ℓ}) → Result E B → Result E B
ok a >> k = k
err e >> k = err e

module _ {ℓ} {E A B : Type ℓ} where
  infixl 5 ◌>>=◌
  abbrev pub ◌>>=◌ : Result E A → (A → Result E B) → Result E B
  err raised >>= next = err raised
  ok x >>= next = next x

  -- A chain that returned: its first part returned, and so did the next from there.
  pub >>=-eq-ok :
      (first : Result E A) (next : A → Result E B) {end : B}
      → (first >>= next) ≡ ok end
      → (x : A) × (first ≡ ok x) × (next x ≡ ok end)
  >>=-eq-ok (err raised) next returned = cc
  >>=-eq-ok (ok x) next returned = (x, refl, returned)

abbrev pub is_ok {ℓ} : {E A : Type ℓ} → Result E A → Bool
is_ok (ok a) = true
is_ok (err e) = false

pub Result-cases {ℓ} :
    {E A : Type ℓ} (r : Result E A) → ((a : A) × (r ≡ ok a)) ⊎ ((e : E) × (r ≡ err e))
Result-cases (ok a) = inl (a, refl)
Result-cases (err e) = inr (e, refl)

-- A computation that may raise and changes a world; what it has changed stays when it raises.
abbrev pub and_then {ℓ} :
    {E A B W : Type ℓ} → Result E A × W → (A → W → Result E B × W) → Result E B × W
and_then (err e, w) next = (err e, w)
and_then (ok a, w) next = next a w

pub and_then-eq-ok {ℓ} :
    {E A B W : Type ℓ} (m : Result E A × W) (next : A → W → Result E B × W) {b : B} {w' : W}
    → and_then m next ≡ (ok b, w')
    → (a : A) × (w1 : W) × (m ≡ (ok a, w1)) × (next a w1 ≡ (ok b, w'))
and_then-eq-ok (err e, w) next h = cc
and_then-eq-ok (ok a, w) next h = (a, w, refl, h)
