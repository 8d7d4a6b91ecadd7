-- ===== src/Tests/Benchmark.antt =====
-- A benchmark of three runs of a node whose self cost is read from the world.
use codespine.Common.{
  ℕ, suc, inr, ◌-◌, ◌≤◌, ◌≡◌, refl, false, none, some, List, [], ◌∷◌, Text, codes, get_or,
}
use codespine.Common.Int.{pos}
use codespine.Common.Sort.{sort, insert}
use codespine.Query.Types.{SymbolRef}
use codespine.Query.Clamp.{finite}
use codespine.Query.Cost.{CostMetric, static, CostAttribution}
use codespine.Benchmark.{NodeBenchmarkOptions, clamp_runs, measure, median_of, middle}
use codespine.Benchmark.Runs.{Measured, measure-Measured}
use codespine.Tests.Samples.{naturals, ref_to}

abbrev wanted : NodeBenchmarkOptions ℕ
wanted = record {
  target = codes "f";
  metric = none;
  runs = some (finite (pos 3));
  baseline_median = none;
}

abbrev find : ℕ → Text → List (SymbolRef ℕ)
find world target = ref_to "f" 1 ∷ []

-- A node of the graph, whose self cost is the number of the run.
abbrev attribution : ℕ → Text → CostMetric → CostAttribution ℕ
attribution world id metric = record {
  metric = metric;
  edges = static;
  fell_back = false;
  enriched = false;
  total_self = 0;
  coverage = none;
  node = some (record {
    symbol = ref_to "f" 1;
    self_cost = world;
    inclusive_cost = world;
    share_of_total = 0;
    cyclic = false;
    cycle_size = 1;
  });
  callees = [];
  callers = [];
}

measure-Measured_example :
    Measured naturals
      (λ a b. a - b)
      (λ a. a)
      find
      attribution
      (λ run world. inr (suc world))
      (clamp_runs (get_or wanted.runs (finite (pos 5))))
      (measure naturals
        (λ a b. a - b)
        (λ a. a)
        find
        attribution
        (λ run world. inr (suc world))
        wanted
        0)
    × (1 ≤ clamp_runs (get_or wanted.runs (finite (pos 5))))
    × (clamp_runs (get_or wanted.runs (finite (pos 5))) ≤ 50)
measure-Measured_example =
    measure-Measured naturals (λ a b. a - b) (λ a. a) find attribution
      (λ run world. inr (suc world)) wanted 0

median_of_run : median_of naturals (λ a b. a - b) (λ a. a) (5 ∷ 1 ∷ 4 ∷ 8 ∷ []) ≡ some 4
unfolding median_of middle sort insert
median_of_run = refl
