-- ===== src/Prelude/TextLaws.antt =====
-- What the text functions compute, in terms of concatenation.
use Prim.Native.Char.{Char, code}
use Prim.Native.String.{String, ◌++◌}
use Prim.Native.Nat.{ℕ}
use mathlib.Core.Path.{◌≡◌, refl, sym, ap, ◌∙◌}
use mathlib.Core.Logic.{◌↔◌, inl, inr}
use mathlib.Core.Bool.{Bool, true, false, ◌||◌, ◌&&◌, not}
use mathlib.Core.Option.{some}
use native.Mathlib.Omega.{arith}
use text.Mathlib.TextEquality.{Char-path}
use text.Mathlib.TextLemmas.{nil-append, cons-append, cons-ne-nil, cons-eq-cons}
use sev_certify.Prelude.Tests.{◌==◌, ==_iff, ==_refl, Bool-cases, Option-cases}
use sev_certify.Prelude.Texts.{
  is_empty, is_some, strip_prefix, contains, partition, is_space, lstrip, rstrip, strip,
}

pub is_empty_iff : (s : String) → (is_empty s ≡ true) ↔ (s ≡ "")
is_empty_iff String.[] = (λ h. refl, λ h. refl)
is_empty_iff (String.◌∷◌ c s) = (λ h. absurd (cc), λ h. absurd (cons-ne-nil c s h))

-- `s.startswith(t)` splits `s`.
pub strip_prefix_iff : (t s r : String) → (strip_prefix t s ≡ some r) ↔ (s ≡ t ++ r)
unfolding strip_prefix
strip_prefix_iff String.[] s r = (λ h. cc (nil-append r, h), λ h. cc (nil-append r, h))
strip_prefix_iff (String.◌∷◌ c t) String.[] r =
    (λ h. absurd (cc), λ h. absurd (cons-ne-nil c (t ++ r) (sym (h ∙ cons-append c t r))))
strip_prefix_iff (String.◌∷◌ c t) (String.◌∷◌ d s) r =
    let ih = strip_prefix_iff t s r in
    elim (Bool-cases (code c == code d)) [
      | inl e ↦
          let same : c ≡ d = Char-path c d ((==_iff _ _).0 e) in
          (
            λ h. cc (same, ih.0 (rw e at h), cons-append c t r),
            λ h. rw e (ih.1 (cons-eq-cons.0 (h ∙ cons-append c t r)).1),
          )
      | inr e ↦ (
        λ h. absurd (ground (arith, e)),
        λ h.
            let same : d ≡ c = (cons-eq-cons.0 (h ∙ cons-append c t r)).0 in
            absurd (ground (arith, e, ap code same)),
      )
    ]

-- `t` stands in `s`, between `before` and `after`.
pub record Found (t s : String) : Type 0 where
  pub before : String
  pub after : String
  pub split : s ≡ before ++ (t ++ after)

strip_prefix-Found : (t s : String) → is_some (strip_prefix t s) ≡ true → Found t s
strip_prefix-Found t s h = elim (Option-cases (strip_prefix t s)) [
  | inl e ↦ absurd (ground (arith, e))
  | inr (r, e) ↦ record {
    before = "";
    after = r;
    split = (strip_prefix_iff t s r).0 e ∙ sym (nil-append (t ++ r));
  }
]

-- `t in s`.
pub contains-Found : (t s : String) → contains t s ≡ true → Found t s
unfolding contains
contains-Found t String.[] h = strip_prefix-Found t "" h
contains-Found t (String.◌∷◌ c s) h =
    elim (Bool-cases (is_some (strip_prefix t (String.◌∷◌ c s)))) [
      | inl e ↦ strip_prefix-Found t (String.◌∷◌ c s) e
      | inr e ↦
          let found = contains-Found t s (ground (arith, e)) in
          record {
            before = String.◌∷◌ c found.before;
            after = found.after;
            split = cc (found.split, cons-append c found.before (t ++ found.after));
          }
    ]

strip_prefix-append : (t r : String) → is_some (strip_prefix t (t ++ r)) ≡ true
strip_prefix-append t r = rw ((strip_prefix_iff t (t ++ r) r).1 refl)

contains-prefix : (t s : String) → is_some (strip_prefix t s) ≡ true → contains t s ≡ true
unfolding contains
contains-prefix t String.[] h = h
contains-prefix t (String.◌∷◌ c s) h = rw h

contains-append : (before t after : String) → contains t (before ++ (t ++ after)) ≡ true
unfolding contains
contains-append String.[] t after =
    rw (nil-append (t ++ after)) (contains-prefix t (t ++ after) (strip_prefix-append t after))
contains-append (String.◌∷◌ c before) t after =
    rw (cons-append c before (t ++ after)) (ground (arith, contains-append before t after))

pub contains_iff : (t s : String) → (contains t s ≡ true) ↔ Found t s
contains_iff t s = (contains-Found t s, λ f. rw f.split (contains-append f.before t f.after))

-- A separator that was found splits the text.
pub partition-split :
    (c : Char) (s before after : String)
    → partition (code c) s ≡ (before, true, after)
    → s ≡ before ++ String.◌∷◌ c after
unfolding partition
partition-split c String.[] before after h = absurd (cc)
partition-split c (String.◌∷◌ x s) before after h = elim (Bool-cases (code x == code c)) [
  | inl e ↦
      let same : x ≡ c = Char-path x c ((==_iff _ _).0 e) in
      let first : before ≡ "" = ground (arith, e) in
      let rest : s ≡ after = ground (arith, e) in
      cc (same, first, rest, nil-append (String.◌∷◌ c after))
  | inr e ↦
      let (head, sep, tail) = partition (code c) s in
      let longer : before ≡ String.◌∷◌ x head = ground (arith, e) in
      let found : sep ≡ true = ground (arith, e) in
      let rest : tail ≡ after = ground (arith, e) in
      let split : s ≡ head ++ String.◌∷◌ c tail =
        partition-split c s head tail (λ i. (head, found i, tail)) in
      cc (longer, rest, split, cons-append x head (String.◌∷◌ c tail))
]

abbrev pub has_char : ℕ → String → Bool
has_char c String.[] = false
has_char c (String.◌∷◌ x s) = code x == c || has_char c s

-- A text without the separator is what stands before the first one.
pub partition-append :
    (c : Char) (before after : String)
    → has_char (code c) before ≡ false
    → partition (code c) (before ++ String.◌∷◌ c after) ≡ (before, true, after)
unfolding partition
partition-append c String.[] after h =
    rw (nil-append (String.◌∷◌ c after)) (rw (==_refl (code c)) refl)
partition-append c (String.◌∷◌ x before) after h =
    rw (cons-append x before (String.◌∷◌ c after))
      (ground (arith, partition-append c before after (ground arith)))

-- No white space.
abbrev pub solid : String → Bool
solid String.[] = true
solid (String.◌∷◌ c s) = not (is_space (code c)) && solid s

rstrip-solid : (s : String) → solid s ≡ true → rstrip s ≡ s
unfolding rstrip
rstrip-solid String.[] h = refl
rstrip-solid (String.◌∷◌ c s) h = ground (arith, rstrip-solid s)

lstrip-solid : (s : String) → solid s ≡ true → lstrip s ≡ s
unfolding lstrip
lstrip-solid String.[] h = refl
lstrip-solid (String.◌∷◌ c s) h = ground arith

pub strip-solid : (s : String) → solid s ≡ true → strip s ≡ s
unfolding strip
strip-solid s h = ap lstrip (rstrip-solid s h) ∙ lstrip-solid s h
