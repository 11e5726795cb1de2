-- ===== src/Commit/Fields.antt =====
-- `_tcb_fields_match`.
use sev_certify.Prelude.{
  String, Bool, true, false, ◌&&◌, not, List, [], ◌∷◌, ◌++◌, none, some, if◌then◌else◌, str_eq, all,
  ◌≡◌, ◌↔◌, refl, Each, arith, eq_iff, Option-cases, inl, inr,
}
use sev_certify.Prelude.Dicts.{Dict, get, has}

abbrev pub core_tcb_fields : List String
core_tcb_fields = "Boot Loader" ∷ "TEE" ∷ "SNP" ∷ "Microcode" ∷ []

abbrev pub all_tcb_fields : List String
all_tcb_fields = core_tcb_fields ++ "FMC" ∷ []

-- `a[f] == b[f]`, read where both have the field.
abbrev pub same_field : Dict String → Dict String → String → Bool
same_field a b f = elim (get f a) [
  | none ↦ true
  | some x ↦ elim (get f b) [ none ↦ true | some y ↦ str_eq x y ]
]

unfoldable pub tcb_fields_match : Dict String → Dict String → Bool
tcb_fields_match a b =
    if not (all (λ f. has f a && has f b) core_tcb_fields)
    then false
    else all (same_field a b) all_tcb_fields

-- Both have the field, with one value.
abbrev pub Agree : Dict String → Dict String → String → Type 0
Agree a b f = (v : String) × (get f a ≡ some v) × (get f b ≡ some v)

agree :
    (a b : Dict String) (f : String)
    → (has f a && has f b) ≡ true
    → same_field a b f ≡ true
    → Agree a b f
agree a b f present same = elim (Option-cases (get f a)) [
  | inl e ↦ absurd (ground (arith, e))
  | inr (x, e) ↦ elim (Option-cases (get f b)) [
    | inl e' ↦ absurd (ground (arith, e'))
    | inr (y, e') ↦ (x, e, ground (arith, e, e', eq_iff x y))
  ]
]

agreed :
    (a b : Dict String) (f : String)
    → Agree a b f
    → ((has f a && has f b) ≡ true) × (same_field a b f ≡ true)
agreed a b f (v, e, e') = (ground (arith, e, e'), ground (arith, e, e', eq_iff v v))

agree_if :
    (a b : Dict String) (f : String)
    → ((x y : String) → get f a ≡ some x → get f b ≡ some y → x ≡ y)
    → same_field a b f ≡ true
agree_if a b f h = elim (Option-cases (get f a)) [
  | inl e ↦ ground (arith, e)
  | inr (x, e) ↦ elim (Option-cases (get f b)) [
    | inl e' ↦ ground (arith, e, e')
    | inr (y, e') ↦ ground (arith, e, e', eq_iff x y, h x y e e')
  ]
]

same_if :
    (a b : Dict String) (f x y : String)
    → same_field a b f ≡ true
    → get f a ≡ some x
    → get f b ≡ some y
    → x ≡ y
same_if a b f x y same e e' = ground (arith, eq_iff x y)

all_of : {A : Type 0} (p : A → Bool) (xs : List A) → all p xs ≡ true → Each (λ x. p x ≡ true) xs
all_of p [] h = tt
all_of p (x ∷ xs) h = (ground arith, all_of p xs (ground arith))

of_all : {A : Type 0} (p : A → Bool) (xs : List A) → Each (λ x. p x ≡ true) xs → all p xs ≡ true
of_all p [] h = refl
of_all p (x ∷ xs) h = ground (arith, of_all p xs h.1)

-- All four core fields stand in both with one value, and FMC has one value where it stands in both.
abbrev pub Agrees : Dict String → Dict String → Type 0
Agrees a b =
    Each (Agree a b) core_tcb_fields
    × ((x y : String) → get "FMC" a ≡ some x → get "FMC" b ≡ some y → x ≡ y)

-- Two readings match exactly if all four core fields stand in both with one value, and FMC has one
-- value where it stands in both.
pub tcb_fields_match-Agrees : (a b : Dict String) → (tcb_fields_match a b ≡ true) ↔ Agrees a b
unfolding tcb_fields_match
tcb_fields_match-Agrees a b = (
  λ h.
      let present : all (λ f. has f a && has f b) core_tcb_fields ≡ true = ground arith in
      let same : all (same_field a b) all_tcb_fields ≡ true = ground arith in
      let p = all_of (λ f. has f a && has f b) core_tcb_fields present in
      let s = all_of (same_field a b) all_tcb_fields same in
      (
        (
          agree a b _ p.0 s.0,
          (
            agree a b _ p.1.0 s.1.0,
            (agree a b _ p.1.1.0 s.1.1.0, (agree a b _ p.1.1.1.0 s.1.1.1.0, tt)),
          ),
        ),
        λ x y. same_if a b "FMC" x y s.1.1.1.1.0,
      ),
  λ h.
      let c0 = agreed a b _ h.0.0 in
      let c1 = agreed a b _ h.0.1.0 in
      let c2 = agreed a b _ h.0.1.1.0 in
      let c3 = agreed a b _ h.0.1.1.1.0 in
      let present : all (λ f. has f a && has f b) core_tcb_fields ≡ true =
        of_all (λ f. has f a && has f b) core_tcb_fields (c0.0, (c1.0, (c2.0, (c3.0, tt)))) in
      let same : all (same_field a b) all_tcb_fields ≡ true =
        of_all (same_field a b) all_tcb_fields
          (c0.1, (c1.1, (c2.1, (c3.1, (agree_if a b "FMC" h.1, tt))))) in
      rw present same,
)
