-- ===== src/Cli/CertifyLaws.antt =====
-- The result of a certification, and the exit code of the program.
use sev_certify.Prelude.{
  ℕ, ◌≡◌, refl, Bool, true, false, not, List, [], ◌∷◌, ◌++◌, ok, any, all, arith, map, and_then,
  and_then-eq-ok, Bool-cases, if◌then◌else◌, inl, inr, String, Each, sym, ap, ◌∙◌,
}
use Prim.Native.Nat.{max}
use mathlib.Core.List.{append_assoc, append-nil, map-append}
use sev_certify.Models.Definitions.{
  Status, pass, TestDefinition, TestResult, CertificationDefinition, CertificationResult,
}
use sev_certify.Cli.Certified.{passed}
use sev_certify.Cli.Certify.{
  severity, worse_result, Runner, run_tests, fold_worse, execute_certification, run_certifications,
  main_run, certified, exit_code,
}
use sev_certify.Cli.Select.{filter_tests, is_nil}

-- The severity of the worst of a list of results.
abbrev pub worst : List TestResult → ℕ
worst [] = 0
worst (tr ∷ trs) = max (severity tr.result) (worst trs)

none_fails :
    {A : Type 0} (p : A → Bool) (xs : List A) → any (λ x. not (p x)) xs ≡ false → all p xs ≡ true
none_fails p [] e = refl
none_fails p (x ∷ xs) e =
    let here : p x ≡ true = ground (arith, e) in rw here (none_fails p xs (ground (arith, e)))

-- A certification ran all of its tests, in order, and is as severe as the worst of them.
abbrev pub IsComplete : CertificationResult → Type 0
IsComplete cr =
    (map (λ tr. tr.test) cr.test_results ≡ cr.certification.tests)
    × (severity cr.result ≡ worst cr.test_results)

-- The certifications that a filter selects a test of, each with the tests that are selected.
abbrev pub certifications_of :
    List (CertificationDefinition × List String) → List CertificationDefinition
certifications_of [] = []
certifications_of ((cert, level_filters) ∷ entries) =
    let rest = certifications_of entries in
    if is_nil (filter_tests cert level_filters).tests
    then rest
    else filter_tests cert level_filters ∷ rest

module _ {E W : Type 0} (run : Runner E W) where
  worse-severity : (a b : Status) → severity (worse_result a b) ≡ max (severity a) (severity b)
  unfolding worse_result
  worse-severity a b = ground arith

  fold_worse-severity :
      (overall : Status) (trs : List TestResult)
      → severity (fold_worse run overall trs) ≡ max (severity overall) (worst trs)
  unfolding fold_worse
  fold_worse-severity overall [] = omega arith
  fold_worse-severity overall (tr ∷ trs) = omega (
    arith,
    fold_worse-severity (worse_result overall tr.result) trs,
    worse-severity overall tr.result,
  )

  -- `run` reports on the test that it was given.
  module _
      (reports : (test : TestDefinition) (w w' : W) (tr : TestResult)
        → run test w ≡ (ok tr, w')
        → tr.test ≡ test) where
    run_tests-tests :
        (done : List TestResult) (tests : List TestDefinition) (w w' : W) (trs : List TestResult)
        → run_tests run done tests w ≡ (ok trs, w')
        → map (λ tr. tr.test) trs ≡ map (λ tr. tr.test) done ++ tests
    unfolding run_tests
    run_tests-tests done [] w w' trs e = let same : trs ≡ done = cc in rw same (sym (append-nil _))
    run_tests-tests done (test ∷ tests) w w' trs e =
        let (tr, w1, one, rest) = and_then-eq-ok (run test w) _ e in
        run_tests-tests (done ++ tr ∷ []) tests w1 w' trs rest
        ∙ ap (λ ts. ts ++ tests) (map-append (λ r. r.test) done (tr ∷ []))
        ∙ append_assoc (map (λ r. r.test) done) (tr.test ∷ []) tests
        ∙ ap (λ t. map (λ r. r.test) done ++ t ∷ tests) (reports test w w1 tr one)

    -- Where a certification ends with a result, it holds one test result for each of its tests, in
    -- order, and the certification is as severe as the worst of them.
    pub execute_certification-worst :
        (cert : CertificationDefinition) (w w' : W) (cr : CertificationResult)
        → execute_certification run cert w ≡ (ok cr, w')
        → (map (λ tr. tr.test) cr.test_results ≡ cert.tests)
          × (severity cr.result ≡ worst cr.test_results)
    unfolding execute_certification
    execute_certification-worst cert w w' cr e =
        let (trs, w1, all, last) = and_then-eq-ok (run_tests run [] cert.tests w) _ e in
        let results : cr.test_results ≡ trs = cc last in
        let overall : cr.result ≡ fold_worse run pass trs = cc last in
        rw (results, overall)
          (run_tests-tests [] cert.tests w w1 trs all, omega (arith, fold_worse-severity pass trs))

    execute_certification-IsComplete :
        (cert : CertificationDefinition) (w w' : W) (cr : CertificationResult)
        → execute_certification run cert w ≡ (ok cr, w')
        → (cr.certification ≡ cert) × IsComplete cr
    unfolding execute_certification
    execute_certification-IsComplete cert w w' cr e =
        let (trs, w1, all, last) = and_then-eq-ok (run_tests run [] cert.tests w) _ e in
        let whole : cr.certification ≡ cert = cc last in
        rw whole (refl, execute_certification-worst cert w w' cr e)

    snoc_map :
        (done : List CertificationResult) (cr : CertificationResult)
        (more : List CertificationDefinition)
        → map (λ r. r.certification) (done ++ cr ∷ []) ++ more
          ≡ map (λ r. r.certification) done ++ cr.certification ∷ more
    snoc_map done cr more =
        ap (λ ts. ts ++ more) (map-append (λ r. r.certification) done (cr ∷ []))
        ∙ append_assoc (map (λ r. r.certification) done) (cr.certification ∷ []) more

    Each-snoc :
        (done : List CertificationResult) (cr : CertificationResult)
        → Each IsComplete done
        → IsComplete cr
        → Each IsComplete (done ++ cr ∷ [])
    Each-snoc [] cr each one = (one, tt)
    Each-snoc (x ∷ done) cr each one = (each.0, Each-snoc done cr each.1 one)

    run_certifications-IsComplete :
        (done : List CertificationResult) (entries : List (CertificationDefinition × List String))
        (w w' : W) (crs : List CertificationResult)
        → Each IsComplete done
        → run_certifications run done entries w ≡ (ok crs, w')
        → (map (λ cr. cr.certification) crs
            ≡ map (λ cr. cr.certification) done ++ certifications_of entries)
          × Each IsComplete crs
    unfolding run_certifications
    run_certifications-IsComplete done [] w w' crs each e =
        let same : crs ≡ done = cc in rw same (sym (append-nil _), each)
    run_certifications-IsComplete done ((cert, fs) ∷ entries) w w' crs each e =
        let rest = certifications_of entries in
        elim (Bool-cases (is_nil (filter_tests cert fs).tests)) [
          | inl none_left ↦
              rw none_left
                (run_certifications-IsComplete done entries w w' crs each (cc (none_left, e)))
          | inr some_left ↦
              let run_on : and_then (execute_certification run (filter_tests cert fs) w)
                    (λ cr w1. run_certifications run (done ++ cr ∷ []) entries w1)
                  ≡ (ok crs, w') =
                cc (some_left, e) in
              let (cr, w1, one, later) =
                and_then-eq-ok (execute_certification run (filter_tests cert fs) w) _ run_on in
              let (whole, complete) = execute_certification-IsComplete _ _ _ _ one in
              let (order, all) =
                run_certifications-IsComplete (done ++ cr ∷ []) entries w1 w' crs
                  (Each-snoc done cr each complete) later in
              rw some_left (
                order
                    ∙ snoc_map done cr rest
                    ∙ ap (λ c. map (λ r. r.certification) done ++ c ∷ rest) whole,
                all,
              )
        ]

    worst-all-passed : (trs : List TestResult) → worst trs ≡ 0 → all passed trs ≡ true
    worst-all-passed [] e = refl
    worst-all-passed (tr ∷ trs) e =
        let here : passed tr ≡ true = ground (arith, e) in
        rw here (worst-all-passed trs (omega (arith, e)))

    certified-all-passed :
        (crs : List CertificationResult)
        → Each IsComplete crs
        → any (λ cr. not (certified run cr)) crs ≡ false
        → all (λ cr. all passed cr.test_results) crs ≡ true
    certified-all-passed [] each e = refl
    certified-all-passed (cr ∷ crs) each e =
        let here : all passed cr.test_results ≡ true =
          worst-all-passed cr.test_results (ground (arith, each.0.1, e)) in
        rw here (certified-all-passed crs each.1 (ground (arith, e)))

    -- Where each run of a test reports on the test it was given: the program exits with 0 only if every
    -- prerequisite was run, in order, and passed, every certification that a filter selects a test of
    -- was run, in order and restricted to the selected tests, each with a result for each of these
    -- tests, in order, and every one of these tests passed.
    pub main_run-zero :
        (prereqs : List TestDefinition) (entries : List (CertificationDefinition × List String))
        (w w' : W)
        → main_run run prereqs entries w ≡ (ok 0, w')
        → (trs : List TestResult) × (w1 : W) × (crs : List CertificationResult) × (run_tests run []
              prereqs w
            ≡ (ok trs, w1))
          × (run_certifications run [] entries w1 ≡ (ok crs, w'))
          × (map (λ tr. tr.test) trs ≡ prereqs)
          × (all passed trs ≡ true)
          × (map (λ cr. cr.certification) crs ≡ certifications_of entries)
          × Each IsComplete crs
          × (all (λ cr. all passed cr.test_results) crs ≡ true)
    unfolding main_run
    main_run-zero prereqs entries w w' e =
        let (trs, w1, first, second) = and_then-eq-ok (run_tests run [] prereqs w) _ e in
        elim (Bool-cases (any (λ tr. not (passed tr)) trs)) [
          | inl failed ↦ absurd (cc (failed, second))
          | inr clean ↦
              let go_on : and_then (run_certifications run [] entries w1)
                    (λ crs w2. (ok (exit_code run crs), w2))
                  ≡ (ok 0, w') =
                cc (clean, second) in
              let (crs, w2, third, last) =
                and_then-eq-ok (run_certifications run [] entries w1) _ go_on in
              let end : w2 ≡ w' = cc last in
              let code : exit_code run crs ≡ 0 = cc last in
              let (order, each) = run_certifications-IsComplete [] entries w1 w2 crs tt third in
              (
                trs,
                w1,
                crs,
                first,
                third ∙ ap (λ v. (ok crs, v)) end,
                run_tests-tests [] prereqs w w1 trs first,
                none_fails passed trs clean,
                order,
                each,
                certified-all-passed crs each (ground (arith, code)),
              )
        ]
