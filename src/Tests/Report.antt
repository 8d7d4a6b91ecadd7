-- ===== src/Tests/Report.antt =====
-- The tables and the hottest functions of a small report.
use codespine.Common.{ℕ, ◌≡◌, List, [], ◌∷◌, Text, codes, All, length, sum_by, text_key}
use codespine.Common.Sort.{IsSorted}
use codespine.Common.Strings.{show}
use codespine.Common.Rebuild.{occurrences}
use codespine.Report.{RankedSymbol, by_count, count_by}
use codespine.Report.Counts.{count_by-occurrences}
use codespine.Report.Findings.{NumberTexts, concentrate}
use codespine.Report.Pareto.{IsShortest, concentrate-IsShortest}
use codespine.Tests.Samples.{naturals, code_units}

abbrev kinds : List Text
kinds = codes "CALLS" ∷ codes "READS" ∷ codes "CALLS" ∷ []

count_by-occurrences_example :
    IsSorted (by_count code_units) (count_by code_units kinds)
    × All (λ k. k.count ≡ occurrences k.kind kinds) (count_by code_units kinds)
    × (sum_by (λ k. k.count) (count_by code_units kinds) ≡ length kinds)
count_by-occurrences_example = count_by-occurrences code_units kinds

abbrev texts : NumberTexts ℕ
texts = record { show_number = show; round_percent = show; fixed_percent = show }

abbrev ranked : Text → ℕ → RankedSymbol ℕ
ranked name score = record {
  symbol = record {
    name = name;
    kind = codes "Function";
    file_path = codes "a.ts";
    start_line = 1;
  };
  score = score;
}

abbrev hottest : List (RankedSymbol ℕ)
hottest = ranked (codes "f") 6 ∷ ranked (codes "g") 4 ∷ []

concentrate-IsShortest_example :
    IsShortest naturals texts 10 0 0 hottest (concentrate naturals texts 10 0 0 hottest)
concentrate-IsShortest_example = concentrate-IsShortest naturals texts 10 0 0 hottest
