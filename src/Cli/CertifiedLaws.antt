-- ===== src/Cli/CertifiedLaws.antt =====
-- `_highest_certified_level` against a description by prefixes of the manifest's levels.
use text.Mathlib.TextPositions.{eq_refl}
use sev_certify.Prelude.{
  ℕ, suc, ◌≡◌, refl, sym, ◌∙◌, ap, inl, inr, String, Bool, true, false, not, List, [], ◌∷◌, Option,
  none, some, if◌then◌else◌, arith, ltb, str_eq, eq_iff, any, all, Bool-cases, Option-cases,
}
use sev_certify.Models.Definitions.{TestResult, CertificationResult, member}
use sev_certify.Models.Levels.{IsDistinct}
use sev_certify.Cli.Certified.{
  at_level, passed, walk_levels, index_of, clamp, highest_certified_level,
}

-- A level has results, and all of them passed.
abbrev pub all_passed : List TestResult → Bool
all_passed [] = false
all_passed (tr ∷ trs) = all passed (tr ∷ trs)

abbrev pub level_passed : List TestResult → String → Bool
level_passed trs level = all_passed (at_level level trs)

-- The longest run of passed levels from the first level on.
pub passed_run : List TestResult → List String → List String
passed_run trs [] = []
passed_run trs (l ∷ ls) = if level_passed trs l then l ∷ passed_run trs ls else []

-- The levels up to and including the cap.
pub up_to : String → List String → List String
up_to top [] = []
up_to top (l ∷ ls) = if str_eq l top then l ∷ [] else l ∷ up_to top ls

abbrev pub capped : Option String → List String → List String
capped none levels = levels
capped (some top) levels = up_to top levels

abbrev last_of : String → List String → String
last_of x [] = x
last_of x (y ∷ ys) = last_of y ys

abbrev pub last? : List String → Option String
last? [] = none
last? (x ∷ xs) = some (last_of x xs)

abbrev last_or : Option String → List String → Option String
last_or h [] = h
last_or h (x ∷ xs) = some (last_of x xs)

all-any : (ts : List TestResult) → all passed ts ≡ not (any (λ t. not (passed t)) ts)
all-any [] = refl
all-any (t ∷ ts) = ground (arith, all-any ts)

last_or-some : (x : String) (xs : List String) → last_or (some x) xs ≡ some (last_of x xs)
last_or-some x [] = refl
last_or-some x (y ∷ ys) = refl

walk_levels-last :
    (trs : List TestResult) (h : Option String) (levels : List String)
    → walk_levels trs h levels ≡ last_or h (passed_run trs levels)
unfolding walk_levels passed_run
walk_levels-last trs h [] = refl
walk_levels-last trs h (l ∷ ls) = ground (
  arith,
  walk_levels-last trs (some l) ls,
  last_or-some l (passed_run trs ls),
  all-any (at_level l trs),
)

last_of-member : (x : String) (xs : List String) → member (last_of x xs) (x ∷ xs) ≡ true
last_of-member x [] = ground (arith, eq_refl x)
last_of-member x (y ∷ ys) = ground (arith, last_of-member y ys)

passed_run-member :
    (trs : List TestResult) (k : String) (levels : List String)
    → member k (passed_run trs levels) ≡ true
    → member k levels ≡ true
unfolding passed_run
passed_run-member trs k [] h = h
passed_run-member trs k (l ∷ ls) h = ground (arith, passed_run-member trs k ls)

index_of-member :
    (k : String) (xs : List String) → member k xs ≡ true → (i : ℕ) × (index_of k xs ≡ some i)
unfolding index_of
index_of-member k [] h = absurd (cc)
index_of-member k (x ∷ xs) h = elim (Bool-cases (str_eq x k)) [
  | inl e ↦ (0, rw e)
  | inr e ↦ let (i, p) = index_of-member k xs (ground (arith, e)) in (suc i, rw (e, p))
]

up_to-nil :
    (trs : List TestResult) (top : String) (ls : List String)
    → passed_run trs ls ≡ []
    → passed_run trs (up_to top ls) ≡ []
unfolding passed_run up_to
up_to-nil trs top [] h = refl
up_to-nil trs top (l ∷ ls) h = ground arith

index_of-here : (k x : String) (xs : List String) → str_eq x k ≡ true → index_of k (x ∷ xs) ≡ some 0
unfolding index_of
index_of-here k x xs e = rw e

index_of-there :
    (k x : String) (xs : List String) (i : ℕ)
    → str_eq x k ≡ false
    → index_of k xs ≡ some i
    → index_of k (x ∷ xs) ≡ some (suc i)
unfolding index_of
index_of-there k x xs i e p = rw (e, p)

index_of-zero : (k x : String) (xs : List String) → index_of k (x ∷ xs) ≡ some 0 → str_eq x k ≡ true
unfolding index_of
index_of-zero k x xs h = elim (Bool-cases (str_eq x k)) [
  | inl e ↦ e
  | inr e ↦ elim (Option-cases (index_of k xs)) [
    | inl p ↦ absurd (ground (arith, e, p))
    | inr (i, p) ↦ absurd (ground (arith, e, p))
  ]
]

-- One clamp, below a first level that is neither the cap nor the highest.
clamp-cons :
    (l h top : String) (ls : List String)
    → str_eq l top ≡ false
    → str_eq l h ≡ false
    → member top ls ≡ true
    → member h ls ≡ true
    → clamp (l ∷ ls) (some h) (some top) ≡ clamp ls (some h) (some top)
unfolding clamp
clamp-cons l h top ls c e mc mh =
    let (i, p) = index_of-member top ls mc in
    let (j, q) = index_of-member h ls mh in
    ground (arith, p, q, index_of-there top l ls i c p, index_of-there h l ls j e q)

last?-cons : (l x : String) (xs : List String) → last? xs ≡ some x → last? (l ∷ xs) ≡ some x
last?-cons l x [] h = cc
last?-cons l x (y ∷ ys) h = h

last_or-none : (xs : List String) → last_or none xs ≡ last? xs
last_or-none [] = refl
last_or-none (x ∷ xs) = refl

clamp-none : (levels : List String) (top : Option String) → clamp levels none top ≡ some none
unfolding clamp
clamp-none levels none = refl
clamp-none levels (some top) = refl

module _ (trs : List TestResult) (top : String) where
  clamp-first :
      (l h : String) (ls : List String)
      → str_eq l top ≡ true
      → member h (l ∷ ls) ≡ true
      → clamp (l ∷ ls) (some h) (some top) ≡ some (some l)
  unfolding clamp
  clamp-first l h ls e m =
      let (j, q) = index_of-member h (l ∷ ls) m in
      let first = index_of-here top l ls e in
      let same : l ≡ top = (eq_iff l top).0 e in
      elim (Bool-cases (ltb 0 j)) [
        | inl later ↦ ground (arith, q, first, later)
        | inr now ↦
            let zero_index : j ≡ 0 = ground (arith, now) in
            let here : l ≡ h = (eq_iff l h).0 (index_of-zero h l ls (rw zero_index at q)) in
            ground (arith, q, first, now)
      ]

  clamp-last :
      (l : String) (ls : List String)
      → str_eq l top ≡ false
      → member top ls ≡ true
      → clamp (l ∷ ls) (some l) (some top) ≡ some (some l)
  unfolding clamp
  clamp-last l ls e m =
      let (i, p) = index_of-member top ls m in
      ground (arith, index_of-there top l ls i e p, index_of-here l l ls (eq_refl l))

  clamp-some :
      (ls : List String) (h : String)
      → member top ls ≡ true
      → member h ls ≡ true
      → (z : String) × (clamp ls (some h) (some top) ≡ some (some z))
  unfolding clamp
  clamp-some ls h m mh =
      let (i, p) = index_of-member top ls m in
      let (j, q) = index_of-member h ls mh in (if ltb i j then top else h, ground (arith, p, q))

  -- The run below a first passed level that is not the cap.
  clamp-next :
      (l : String) (ls run below : List String)
      → IsDistinct (l ∷ ls)
      → str_eq l top ≡ false
      → member top ls ≡ true
      → ((k : String) → member k run ≡ true → member k ls ≡ true)
      → (run ≡ [] → below ≡ [])
      → clamp ls (last? run) (some top) ≡ some (last? below)
      → clamp (l ∷ ls) (last? (l ∷ run)) (some top) ≡ some (last? (l ∷ below))
  clamp-next l ls [] below d e m inside empty ih = rw (empty refl) (clamp-last l ls e m)
  clamp-next l ls (y ∷ ys) below d e m inside empty ih =
      let h = last_of y ys in
      let mh : member h ls ≡ true = inside h (last_of-member y ys) in
      let apart : str_eq l h ≡ false = elim (Bool-cases (str_eq l h)) [
        | inl same ↦
            let q : l ≡ h = (eq_iff l h).0 same in absurd (ground (arith, d.0, rw (← q) at mh))
        | inr other ↦ other
      ] in
      let (z, some_level) = clamp-some ls h m mh in
      let last : last? below ≡ some z = cc in
      let whole : last? (l ∷ below) ≡ some z = last?-cons l z below last in
      clamp-cons l h top ls e apart m mh ∙ some_level ∙ ap some (sym whole)

  run_inside :
      (l : String) (ls : List String) → member (last_of l (passed_run trs ls)) (l ∷ ls) ≡ true
  run_inside l ls = ground (
    arith,
    last_of-member l (passed_run trs ls),
    passed_run-member trs (last_of l (passed_run trs ls)) ls,
  )

  clamp-passed_run :
      (levels : List String)
      → IsDistinct levels
      → member top levels ≡ true
      → clamp levels (last? (passed_run trs levels)) (some top)
        ≡ some (last? (passed_run trs (up_to top levels)))
  unfolding passed_run up_to
  clamp-passed_run [] d m = absurd (cc)
  clamp-passed_run (l ∷ ls) d m = elim (Bool-cases (level_passed trs l)) [
    | inr failed ↦ ground (arith, failed, clamp-none (l ∷ ls) (some top))
    | inl done ↦ elim (Bool-cases (str_eq l top)) [
      | inl e ↦
          ground
            (arith, done, e, clamp-first l (last_of l (passed_run trs ls)) ls e (run_inside l ls))
      | inr e ↦
          let inside : member top ls ≡ true = ground (arith, e, m) in
          rw (done, e)
            (rw done (
              clamp-next l ls (passed_run trs ls) (passed_run trs (up_to top ls)) d e inside
                (λ k. passed_run-member trs k ls) (up_to-nil trs top ls)
                (clamp-passed_run ls d.1 inside)))
    ]
  ]

clamp-no_cap : (levels : List String) (h : Option String) → clamp levels h none ≡ some h
unfolding clamp
clamp-no_cap levels none = refl
clamp-no_cap levels (some h) = refl

-- Where the manifest's levels are distinct and the cap, if any, is one of them, the certified level
-- is computed without a ValueError, and is the last level of the longest run of passed levels from
-- the first level on, among the levels up to and including the cap; there is none if the first
-- level has not passed. A level has passed if it has results and all of them passed.
pub highest_certified_level-passed_run :
    (cr : CertificationResult)
    → IsDistinct cr.certification.all_levels
    → ((top : String)
        → cr.certification.max_certification_level ≡ some top
        → member top cr.certification.all_levels ≡ true)
    → highest_certified_level cr
      ≡ some (
          last? (
            passed_run cr.test_results
              (capped cr.certification.max_certification_level cr.certification.all_levels)))
unfolding highest_certified_level
highest_certified_level-passed_run cr d listed =
    rw (walk_levels-last cr.test_results none levels)
      (elim (Option-cases cr.certification.max_certification_level) [
        | inl e ↦
            rw e
              (clamp-no_cap levels _ ∙ ap some (last_or-none (passed_run cr.test_results levels)))
        | inr (top, e) ↦
            rw (e, last_or-none (passed_run cr.test_results levels))
              (clamp-passed_run cr.test_results top levels d (listed top e))
      ])
  where
    levels : List String
    levels = cr.certification.all_levels
