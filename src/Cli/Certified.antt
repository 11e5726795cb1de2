-- ===== src/Cli/Certified.antt =====
-- cli.py: `_highest_certified_level`, and output.py's `_group_tests_by_level`.
use mathlib.Core.Option
use sev_certify.Prelude.{
  ℕ, suc, String, Bool, true, false, ◌&&◌, not, List, [], ◌∷◌, Option, none, some, if◌then◌else◌,
  ltb, str_eq, any,
}
use sev_certify.Prelude.Texts.{is_empty}
use sev_certify.Models.Definitions.{pass, TestResult, CertificationResult}

-- The entry of a level in the dictionary that groups the results by level; `[]` stands for no entry.
-- Results of tests without a level are in no entry.
unfoldable pub at_level : String → List TestResult → List TestResult
at_level level [] = []
at_level level (tr ∷ trs) =
    if not (is_empty tr.test.level) && str_eq tr.test.level level
    then tr ∷ at_level level trs
    else at_level level trs

abbrev pub passed : TestResult → Bool
passed tr = elim tr.result [ pass ↦ true | _ ↦ false ]

-- The loop over the levels: an empty entry or a failed test breaks the chain.
unfoldable pub walk_levels : List TestResult → Option String → List String → Option String
unfolding at_level
walk_levels trs highest [] = highest
walk_levels trs highest (level ∷ levels) =
    let rest = walk_levels trs (some level) levels in
    elim (at_level level trs) [
      | [] ↦ highest
      | tr ∷ more ↦ if any (λ t. not (passed t)) (tr ∷ more) then highest else rest
    ]

-- `levels.index(level)`; `none` is the ValueError.
unfoldable pub index_of : String → List String → Option ℕ
index_of level [] = none
index_of level (x ∷ xs) = if str_eq x level then some 0 else Option.map suc (index_of level xs)

unfoldable pub clamp : List String → Option String → Option String → Option (Option String)
clamp levels (some highest) (some cap) = elim (index_of cap levels) [
  | none ↦ none
  | some i ↦ elim (index_of highest levels) [
    | none ↦ none
    | some j ↦ some (if ltb i j then some cap else some highest)
  ]
]
clamp levels highest cap = some highest

-- The outer `none` is the ValueError of `index`.
unfoldable pub highest_certified_level : CertificationResult → Option (Option String)
unfolding walk_levels clamp index_of
highest_certified_level cr =
    clamp cr.certification.all_levels (walk_levels cr.test_results none cr.certification.all_levels)
      cr.certification.max_certification_level
