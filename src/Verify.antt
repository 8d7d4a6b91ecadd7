-- ===== src/Verify.antt =====
-- src/verify/project_verifier.ts: the gate of the optimization loop. Running a command, reading
-- package.json and the clock are parameters.
pub mod Verdict
pub mod Output
use codespine.Common.{
  ℕ, zero, suc, ◌+◌, ◌-◌, Bool, true, false, not, ◌&&◌, ◌||◌, Option, none, some, List, [], ◌∷◌,
  ◌++◌, map, Text, codes, length, get_or, if◌then◌else◌, leb, ltb, filter, any, drop, text_key,
}
use codespine.Common.Int.{ℤ, pos, negsuc}
use codespine.Common.Strings.{split, join}
use codespine.Schema.{Json, str, obj, Fields, end, field, member}
use codespine.Common.JsMap
use codespine.Common.JsMap.{JsMap}

pub data CheckName : Type 0 where
  typecheck test : CheckName

unfoldable pub check_name : CheckName → Text
check_name typecheck = codes "typecheck"
check_name test = codes "test"

pub data CheckStatus : Type 0 where
  pass fail skipped : CheckStatus

pub record PlannedCheck : Type 0 where
  pub name : CheckName
  pub command : Option Text
  pub skipped_reason : Option Text

pub record CheckResult : Type 0 where
  pub name : CheckName
  pub command : Option Text
  pub status : CheckStatus
  pub exit_code : Option ℤ
  pub duration_ms : ℕ
  pub output : Text
  pub skipped_reason : Option Text

pub record VerifyReport : Type 0 where
  pub ok : Bool
  pub behavior_verified : Bool
  pub degraded : Bool
  pub checks : List CheckResult
  pub summary : Text

pub record VerifyOptions : Type 0 where
  pub typecheck_script : Option Text
  pub test_script : Option Text
  pub skip_typecheck : Bool
  pub skip_tests : Bool
  pub output_tail_lines : Option ℤ

unfoldable pub plan_one : CheckName → Text → JsMap Text Text → Bool → PlannedCheck
plan_one name script scripts true = record {
  name = name;
  command = none;
  skipped_reason = some (codes "skipped by request");
}
plan_one name script scripts false = elim (JsMap.get scripts script) [
  | none ↦ record {
    name = name;
    command = none;
    skipped_reason = some (codes "no \"" ++ script ++ codes "\" script in package.json");
  }
  | some command ↦ record {
    name = name;
    command = some (codes "npm run " ++ script);
    skipped_reason = none;
  }
]

unfoldable pub plan_checks : JsMap Text Text → VerifyOptions → List PlannedCheck
plan_checks scripts options =
    plan_one typecheck (get_or options.typecheck_script (codes "typecheck")) scripts
      options.skip_typecheck
    ∷ plan_one test (get_or options.test_script (codes "test")) scripts options.skip_tests
    ∷ []

-- The last lines of a text, all of it where no number of lines above zero is asked for.
unfoldable pub tail : Text → ℤ → Text
tail text (negsuc k) = text
tail text (pos zero) = text
tail text (pos (suc k)) =
    let all_lines = split b'\n' text in
    if leb (length all_lines) (suc k)
    then text
    else join b'\n' (drop (length all_lines - suc k) all_lines)

-- Exit code 0 passes; any other, and a death on a signal, fails.
unfoldable pub status_of : Option ℤ → CheckStatus
status_of (some (pos zero)) = pass
status_of (some (pos (suc k))) = fail
status_of (some (negsuc k)) = fail
status_of none = fail

unfoldable pub is_skipped : CheckResult → Bool
is_skipped check = elim check.status [ skipped ↦ true | pass ↦ false | fail ↦ false ]

unfoldable pub is_failed : CheckResult → Bool
is_failed check = elim check.status [ fail ↦ true | pass ↦ false | skipped ↦ false ]

unfoldable pub is_passed : CheckResult → Bool
is_passed check = elim check.status [ pass ↦ true | fail ↦ false | skipped ↦ false ]

unfoldable pub is_test : CheckResult → Bool
is_test check = elim check.name [ test ↦ true | typecheck ↦ false ]

-- `checks.find(...)`
unfoldable pub find_test : List CheckResult → Option CheckResult
find_test [] = none
find_test (check ∷ checks) = elim (is_test check) [ true ↦ some check | false ↦ find_test checks ]

-- `names.join(separator)`
unfoldable pub join_names : Text → List CheckResult → Text
join_names separator [] = []
join_names separator (check ∷ []) = check_name check.name
join_names separator (check ∷ next ∷ checks) =
    check_name check.name ++ separator ++ join_names separator (next ∷ checks)

unfoldable pub build_summary :
    List CheckResult → List CheckResult → Option CheckResult → Bool → Bool → Text
build_summary [] failed test_check ok behavior_verified =
    codes "could not verify: no type-check or test script found "
    ++ 8212 ∷ codes " change is unverified"
build_summary (check ∷ ran) failed test_check false behavior_verified =
    codes "FAILED: "
    ++ join_names (codes " and ") failed
    ++ codes " did not pass "
    ++ 8212 ∷ codes " revert the edit"
build_summary (check ∷ ran) failed test_check true true =
    codes "verified: "
    ++ join_names (codes " + ") (check ∷ ran)
    ++ codes " passed (behaviour checked)"
build_summary (check ∷ ran) failed none true false =
    codes "type-check passed, but tests did not run " ++ 8212 ∷ codes " behaviour NOT verified"
build_summary (check ∷ ran) failed (some t) true false =
    codes "type-check passed, but "
    ++ get_or t.skipped_reason (codes "tests did not run")
    ++ 32 ∷ 8212 ∷ codes " behaviour NOT verified"

unfoldable pub test_passed : Option CheckResult → Bool
test_passed none = false
test_passed (some check) = is_passed check

unfoldable pub summarize_checks : List CheckResult → VerifyReport
summarize_checks checks =
    let ran = filter (λ check. not (is_skipped check)) checks in
    let failed = filter is_failed ran in
    let test_check = find_test checks in
    let behavior_verified = test_passed test_check in
    let ok = ltb 0 (length ran) && leb (length failed) 0 in
    record {
      ok = ok;
      behavior_verified = behavior_verified;
      degraded = any is_skipped checks;
      checks = checks;
      summary = build_summary ran failed test_check ok behavior_verified;
    }

-- The fields that are strings.
unfoldable pub string_fields : {N : Type 0} → Fields N → JsMap Text Text
string_fields end = []
string_fields (field name value rest) =
    let others = string_fields rest in
    elim value [ str script ↦ (name, script) ∷ others | _ ↦ others ]

-- The scripts of what package.json holds; a file without the shape of one has none.
unfoldable pub scripts_of : {N : Type 0} → Option (Json N) → JsMap Text Text
scripts_of none = []
scripts_of (some json) = elim (member json (codes "scripts")) [
  | none ↦ []
  | some scripts ↦ elim scripts [ obj fields ↦ string_fields fields | _ ↦ [] ]
]

unfoldable pub read_scripts :
    {N : Type 0} → (Text → Option (Json N)) → Option Text → JsMap Text Text
read_scripts parse_json none = []
read_scripts parse_json (some raw) = scripts_of (parse_json raw)

-- What a command leaves: its exit code, its output, and the milliseconds that it took.
pub record Execution : Type 0 where
  pub exit_code : Option ℤ
  pub output : Text
  pub duration_ms : ℕ

module _ {World : Type 0} (exec : Text → World → Execution × World) where
  unfoldable pub run_check : ℤ → PlannedCheck → World → CheckResult × World
  run_check tail_lines check world = elim check.command [
    | none ↦ (
      record {
        name = check.name;
        command = none;
        status = skipped;
        exit_code = none;
        duration_ms = 0;
        output = [];
        skipped_reason = check.skipped_reason;
      },
      world,
    )
    | some command ↦
        let ran = exec command world in
        (
          record {
            name = check.name;
            command = some command;
            status = status_of ran.0.exit_code;
            exit_code = ran.0.exit_code;
            duration_ms = ran.0.duration_ms;
            output = tail ran.0.output tail_lines;
            skipped_reason = none;
          },
          ran.1,
        )
  ]

  -- The gates one after the other.
  unfoldable pub run_checks : ℤ → List PlannedCheck → World → List CheckResult × World
  run_checks tail_lines [] world = ([], world)
  run_checks tail_lines (check ∷ checks) world =
      let first = run_check tail_lines check world in
      let rest = run_checks tail_lines checks first.1 in (first.0 ∷ rest.0, rest.1)

  unfoldable pub verify : JsMap Text Text → VerifyOptions → World → VerifyReport × World
  verify scripts options world =
      let tail_lines = get_or options.output_tail_lines (pos 80) in
      let results = run_checks tail_lines (plan_checks scripts options) world in
      (summarize_checks results.0, results.1)
