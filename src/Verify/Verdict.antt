-- ===== src/Verify/Verdict.antt =====
-- What the verdict says of the gates.
use codespine.Common.{
  zero, suc, ◌≡◌, refl, ap, ◌∙◌, Bool, true, false, ◌&&◌, ◌||◌, Option, none, some, [], ◌∷◌, Text,
  codes, inl, inr, Option-cases, arith, get_or, text_key, ◌++◌,
}
use codespine.Common.Int.{ℤ, pos, negsuc}
use codespine.Common.JsMap
use codespine.Common.JsMap.{JsMap}
use codespine.Verify.{
  CheckName, typecheck, test, CheckStatus, pass, fail, skipped, CheckResult, VerifyOptions,
  Execution, plan_one, plan_checks, status_of, is_skipped, is_failed, is_passed, is_test, find_test,
  test_passed, summarize_checks, run_check, run_checks, verify,
}

-- What a gate comes to: `none` where it does not run, else whether its command exits with 0.
abbrev pub Outcome : Type 0
Outcome = Option Bool

abbrev pub is_zero : Option ℤ → Bool
is_zero (some (pos zero)) = true
is_zero (some (pos (suc k))) = false
is_zero (some (negsuc k)) = false
is_zero none = false

-- A gate runs where it is asked for and package.json has its script.
abbrev pub outcome_of :
    {World : Type 0}
    → (Text → World → Execution × World)
    → JsMap Text Text
    → Text
    → Bool
    → World
    → Outcome × World
outcome_of exec scripts script true world = (none, world)
outcome_of exec scripts script false world = elim (JsMap.get scripts script) [
  | none ↦ (none, world)
  | some command ↦
      let ran = exec (codes "npm run " ++ script) world in (some (is_zero ran.0.exit_code), ran.1)
]

-- Some gate runs, and each that runs succeeds.
abbrev pub both_succeed : Outcome → Outcome → Bool
both_succeed none none = false
both_succeed (some a) none = a
both_succeed none (some b) = b
both_succeed (some a) (some b) = a && b

abbrev pub is_none : Outcome → Bool
is_none none = true
is_none (some b) = false

abbrev status_for : Outcome → CheckStatus
status_for none = skipped
status_for (some true) = pass
status_for (some false) = fail

status_of-is_zero : (code : Option ℤ) → status_of code ≡ status_for (some (is_zero code))
unfolding status_of
status_of-is_zero (some (pos zero)) = refl
status_of-is_zero (some (pos (suc k))) = refl
status_of-is_zero (some (negsuc k)) = refl
status_of-is_zero none = refl

module _ (c : CheckResult) where
  abbrev status_is_skipped : CheckStatus → Bool
  status_is_skipped k = elim k [ skipped ↦ true | pass ↦ false | fail ↦ false ]

  abbrev status_is_failed : CheckStatus → Bool
  status_is_failed k = elim k [ fail ↦ true | pass ↦ false | skipped ↦ false ]

  abbrev status_is_passed : CheckStatus → Bool
  status_is_passed k = elim k [ pass ↦ true | fail ↦ false | skipped ↦ false ]

  skipped_with : (k : CheckStatus) → c.status ≡ k → is_skipped c ≡ status_is_skipped k
  unfolding is_skipped
  skipped_with k e = ap status_is_skipped e

  failed_with : (k : CheckStatus) → c.status ≡ k → is_failed c ≡ status_is_failed k
  unfolding is_failed
  failed_with k e = ap status_is_failed e

  passed_with : (k : CheckStatus) → c.status ≡ k → is_passed c ≡ status_is_passed k
  unfolding is_passed
  passed_with k e = ap status_is_passed e

  test_with :
      (k : CheckName) → c.name ≡ k → is_test c ≡ (elim k [ test ↦ true | typecheck ↦ false ])
  unfolding is_test
  test_with k e = ap (λ (m : CheckName). (elim m [ test ↦ true | typecheck ↦ false ])) e

-- The verdict on two gates with known outcomes.
summarize_two :
    (a b : CheckResult) (first second : Outcome)
    → a.name ≡ typecheck
    → b.name ≡ test
    → a.status ≡ status_for first
    → b.status ≡ status_for second
    → ((summarize_checks (a ∷ b ∷ [])).ok ≡ both_succeed first second)
      × ((summarize_checks (a ∷ b ∷ [])).behavior_verified ≡ get_or second false)
      × ((summarize_checks (a ∷ b ∷ [])).degraded ≡ (is_none first || is_none second))
unfolding summarize_checks find_test test_passed
summarize_two a b first second p q s t =
    let sa = skipped_with a (status_for first) s in
    let sb = skipped_with b (status_for second) t in
    let fa = failed_with a (status_for first) s in
    let fb = failed_with b (status_for second) t in
    let pb = passed_with b (status_for second) t in
    let ta = test_with a typecheck p in
    let tb = test_with b test q in
    (ground (arith, sa, sb, fa, fb), ground (arith, ta, tb, pb), ground (arith, sa, sb))

module _ {World : Type 0} (exec : Text → World → Execution × World) (tail_lines : ℤ)
    (scripts : JsMap Text Text) (name : CheckName) (script : Text) (world : World) where
  run_check-outcome_of :
      (skip : Bool)
      → ((run_check exec tail_lines (plan_one name script scripts skip) world).0.name ≡ name)
        × ((run_check exec tail_lines (plan_one name script scripts skip) world).0.status
            ≡ status_for (outcome_of exec scripts script skip world).0)
        × ((run_check exec tail_lines (plan_one name script scripts skip) world).1
            ≡ (outcome_of exec scripts script skip world).1)
  unfolding run_check plan_one
  run_check-outcome_of true = (refl, refl, refl)
  run_check-outcome_of false = elim (Option-cases (JsMap.get scripts script)) [
    | inl e ↦ rw (e, plan_one, outcome_of) (refl, refl, refl)
    | inr (command, e) ↦ rw (e, plan_one, outcome_of) (refl, status_of-is_zero _, refl)
  ]

module _ {World : Type 0} (exec : Text → World → Execution × World) (scripts : JsMap Text Text)
    (options : VerifyOptions) (world : World) where
  -- The outcomes of the two gates, the tests after the type-check.
  abbrev pub typecheck_outcome : Outcome × World
  typecheck_outcome =
      outcome_of exec scripts (get_or options.typecheck_script (codes "typecheck"))
        options.skip_typecheck world

  abbrev pub test_outcome : Outcome × World
  test_outcome =
      outcome_of exec scripts (get_or options.test_script (codes "test")) options.skip_tests
        typecheck_outcome.1

  -- verify runs the type-check and then the tests, each where it is not skipped by request and
  -- package.json has its script. It is ok exactly where one of the two runs and each that runs exits
  -- with 0; behaviour is verified exactly where the tests run and exit with 0; the verdict is degraded
  -- exactly where one of the two does not run.
  pub verify-outcomes :
      ((verify exec scripts options world).0.ok ≡ both_succeed typecheck_outcome.0 test_outcome.0)
      × ((verify exec scripts options world).0.behavior_verified ≡ get_or test_outcome.0 false)
      × ((verify exec scripts options world).0.degraded
          ≡ (is_none typecheck_outcome.0 || is_none test_outcome.0))
      × ((verify exec scripts options world).1 ≡ test_outcome.1)
  unfolding verify run_checks plan_checks
  verify-outcomes =
      let lines = get_or options.output_tail_lines (pos 80) in
      let script = get_or options.typecheck_script (codes "typecheck") in
      let h =
        run_check-outcome_of exec lines scripts typecheck script world options.skip_typecheck in
      let next =
        (run_check exec lines (plan_one typecheck script scripts options.skip_typecheck) world).1 in
      let k =
        run_check-outcome_of exec lines scripts test (get_or options.test_script (codes "test"))
          next options.skip_tests in
      let (n1, s1, e) = h in
      let (n2, s2, w2) = k in
      let second : World → Outcome × World =
        outcome_of exec scripts (get_or options.test_script (codes "test")) options.skip_tests in
      let (ok, behavior, degraded) =
        summarize_two
          (run_check exec lines (plan_one typecheck script scripts options.skip_typecheck) world).0
          (run_check exec lines
            (plan_one test (get_or options.test_script (codes "test")) scripts options.skip_tests)
            next).0
          typecheck_outcome.0 (second next).0 n1 n2 s1 s2 in
      (
        ok ∙ ap (λ w. both_succeed typecheck_outcome.0 (second w).0) e,
        behavior ∙ ap (λ w. get_or (second w).0 false) e,
        degraded ∙ ap (λ w. is_none typecheck_outcome.0 || is_none (second w).0) e,
        w2 ∙ ap (λ w. (second w).1) e,
      )
