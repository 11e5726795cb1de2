-- ===== src/Models/Levels.antt =====
-- The ordered list of levels that a certification definition collects from its tests.
use sev_certify.Prelude.{
  ◌≡◌, ◌≢◌, refl, inl, inr, String, true, false, ◌&&◌, ◌||◌, not, List, [], ◌∷◌, ◌++◌, some, ok,
  arith, any, str_eq, eq_iff, Bool-cases,
}
use sev_certify.Prelude.Texts.{is_empty}
use sev_certify.Models.Definitions.{
  TestDefinition, CertificationDefinition, member, collect_levels, certification_post_init,
}

-- No level stands twice.
abbrev pub IsDistinct : List String → Type 0
IsDistinct [] = Unit
IsDistinct (x ∷ xs) = (member x xs ≡ false) × IsDistinct xs

pub member-snoc :
    (k x : String) (xs : List String) → member k (xs ++ x ∷ []) ≡ (member k xs || str_eq x k)
member-snoc k x [] = ground arith
member-snoc k x (y ∷ ys) = ground (arith, member-snoc k x ys)

IsDistinct-snoc :
    (xs : List String) (x : String)
    → IsDistinct xs
    → member x xs ≡ false
    → IsDistinct (xs ++ x ∷ [])
IsDistinct-snoc [] x d m = (refl, tt)
IsDistinct-snoc (y ∷ ys) x d m = (
  ground (arith, member-snoc y x ys, eq_iff x y, eq_iff y x),
  IsDistinct-snoc ys x d.1 (ground arith),
)

collect_levels-IsDistinct :
    (seen : List String) (ts : List TestDefinition)
    → IsDistinct seen
    → IsDistinct (collect_levels seen ts)
unfolding collect_levels
collect_levels-IsDistinct seen [] d = d
collect_levels-IsDistinct seen (t ∷ ts) d =
    elim (Bool-cases (not (is_empty t.level) && not (member t.level seen))) [
      | inl e ↦ rw e (
          collect_levels-IsDistinct (seen ++ t.level ∷ []) ts
            (IsDistinct-snoc seen t.level d (ground (arith, e))))
      | inr e ↦ rw e (collect_levels-IsDistinct seen ts d)
    ]

member-collect_levels :
    (k : String) (seen : List String) (ts : List TestDefinition)
    → member k (collect_levels seen ts)
      ≡ (member k seen || (not (is_empty k) && any (λ t. str_eq t.level k) ts))
unfolding collect_levels
member-collect_levels k seen [] = ground arith
member-collect_levels k seen (t ∷ ts) =
    elim (Bool-cases (not (is_empty t.level) && not (member t.level seen))) [
      | inl e ↦ rw e (
          rw (member-collect_levels k (seen ++ t.level ∷ []) ts) (
            rw (member-snoc k t.level seen) (elim (Bool-cases (str_eq t.level k)) [
              | inl same ↦
                  let q : t.level ≡ k = (eq_iff t.level k).0 same in
                  rw same (ground (arith, rw q at e))
              | inr other ↦ rw other (ground arith)
            ])))
      | inr e ↦ rw e (
          rw (member-collect_levels k seen ts) (elim (Bool-cases (str_eq t.level k)) [
            | inl same ↦
                let q : t.level ≡ k = (eq_iff t.level k).0 same in
                rw same (ground (arith, rw q at e))
            | inr other ↦ rw other (ground arith)
          ]))
    ]

-- A definition given with tests and without levels, once accepted, has distinct levels: exactly the
-- non-empty levels of its tests; and a cap, if there is one, is among them unless there are none.
-- Its other fields are unchanged.
pub certification_post_init-levels :
    (c d : CertificationDefinition)
    → c.all_levels ≡ []
    → c.tests ≢ []
    → certification_post_init c ≡ ok d
    → IsDistinct d.all_levels
      × ((k : String)
          → member k d.all_levels ≡ (not (is_empty k) && any (λ t. str_eq t.level k) c.tests))
      × ((cap : String)
          → d.max_certification_level ≡ some cap
          → d.all_levels ≢ []
          → member cap d.all_levels ≡ true)
      × (d ≡ record c { all_levels = d.all_levels })
unfolding certification_post_init
certification_post_init-levels c d n t h =
    let levels : d.all_levels ≡ collect_levels [] c.tests = ground arith in
    (
      rw levels (collect_levels-IsDistinct [] c.tests tt),
      λ k. rw levels (member-collect_levels k [] c.tests),
      λ cap e nonempty. ground arith,
      ground arith,
    )
