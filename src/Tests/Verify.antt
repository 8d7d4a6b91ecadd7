-- ===== src/Tests/Verify.antt =====
-- The gates of a project with both scripts, whose tests fail.
use codespine.Common.{
  ℕ, suc, ◌-◌, ◌≡◌, refl, false, none, some, Text, [], ◌∷◌, codes, length, drop, get_or, ◌||◌,
}
use codespine.Common.Int.{pos}
use codespine.Common.Strings.{split, join}
use codespine.Common.JsMap.{JsMap}
use codespine.Verify.{VerifyOptions, Execution, verify, tail}
use codespine.Verify.Verdict.{
  both_succeed, is_none, typecheck_outcome, test_outcome, verify-outcomes,
}
use codespine.Verify.Output.{split-tail}

abbrev scripts : JsMap Text Text
scripts = (codes "typecheck", codes "tsc") ∷ (codes "test", codes "vitest") ∷ []

abbrev defaults : VerifyOptions
defaults = record {
  typecheck_script = none;
  test_script = none;
  skip_typecheck = false;
  skip_tests = false;
  output_tail_lines = none;
}

-- The first command passes, the later ones fail.
abbrev exec : Text → ℕ → Execution × ℕ
exec command runs =
    (record { exit_code = some (pos runs); output = command; duration_ms = 5 }, suc runs)

verify-outcomes_example :
    ((verify exec scripts defaults 0).0.ok
      ≡ both_succeed
          (typecheck_outcome exec scripts defaults 0).0
          (test_outcome exec scripts defaults 0).0)
    × ((verify exec scripts defaults 0).0.behavior_verified
        ≡ get_or (test_outcome exec scripts defaults 0).0 false)
    × ((verify exec scripts defaults 0).0.degraded ≡ (
        is_none (typecheck_outcome exec scripts defaults 0).0
        || is_none (test_outcome exec scripts defaults 0).0))
    × ((verify exec scripts defaults 0).1 ≡ (test_outcome exec scripts defaults 0).1)
verify-outcomes_example = verify-outcomes exec scripts defaults 0

abbrev three_lines : Text
three_lines = codes "a\nb\nc"

split-tail_example :
    split b'\n' (tail three_lines (pos 2))
    ≡ drop (length (split b'\n' three_lines) - 2) (split b'\n' three_lines)
split-tail_example = split-tail three_lines 1

tail_run : tail three_lines (pos 2) ≡ codes "b\nc"
unfolding tail split join
tail_run = refl
