-- ===== src/Benchmark/Stats.antt =====
-- src/benchmark/benchmark_stats.ts: the statistics of the values of the runs.
use Prim.Native.Nat.{Ordering}
use codespine.Common.{
  ℕ, ◌-◌, ◌/◌, ◌%◌, Option, none, some, List, [], ◌∷◌, length, if◌then◌else◌, get_elem?, nat_beq,
}
use codespine.Common.Sort.{sort}
use codespine.Query.Types.{Numbers, greater}

pub data Direction : Type 0 where
  improved regressed unchanged : Direction

module _ (N : Type 0) where
  pub record BenchmarkStatsSummary : Type 0 where
    pub runs : ℕ
    pub median : N
    pub min : N
    pub max : N
    pub mean : N
    pub spread : N
    pub values : List N

  -- `percent` is `none` where the source has NaN.
  pub record BenchmarkDelta : Type 0 where
    pub baseline_median : N
    pub current_median : N
    pub absolute : N
    pub percent : Option N

module _ (n : Numbers) (sub : n.Number → n.Number → n.Number) (abs : n.Number → n.Number) where
  open n use {Number, of_ℕ, add, div}

  -- The middle of a sorted list, the mean of the two middle values where the count is even.
  unfoldable pub middle : List Number → Option Number
  middle sorted =
      let mid = length sorted / 2 in
      if nat_beq (length sorted % 2) 1
      then get_elem? sorted mid
      else elim (get_elem? sorted (mid - 1)) [
        | none ↦ none
        | some low ↦ elim (get_elem? sorted mid) [
          | none ↦ none
          | some high ↦ some (div (add low high) (of_ℕ 2))
        ]
      ]

  -- `none` where the source throws.
  unfoldable pub median_of : List Number → Option Number
  median_of [] = none
  median_of (value ∷ values) = middle (sort n.compare (value ∷ values))

  unfoldable pub min_of : Number → List Number → Number
  min_of best [] = best
  min_of best (value ∷ values) =
      min_of (if greater n.compare best value then value else best) values

  unfoldable pub max_of : Number → List Number → Number
  max_of best [] = best
  max_of best (value ∷ values) =
      max_of (if greater n.compare value best then value else best) values

  unfoldable pub sum_of : Number → List Number → Number
  sum_of total [] = total
  sum_of total (value ∷ values) = sum_of (add total value) values

  unfoldable pub summary_of : Number → List Number → Number → BenchmarkStatsSummary Number
  summary_of value values median =
      let min = min_of value values in
      let max = max_of value values in
      record {
        runs = length (value ∷ values);
        median = median;
        min = min;
        max = max;
        mean = div (sum_of n.zero (value ∷ values)) (of_ℕ (length (value ∷ values)));
        spread = sub max min;
        values = value ∷ values;
      }

  unfoldable pub summarize_runs : List Number → Option (BenchmarkStatsSummary Number)
  summarize_runs [] = none
  summarize_runs (value ∷ values) = elim (median_of (value ∷ values)) [
    | none ↦ none
    | some median ↦ some (summary_of value values median)
  ]

  unfoldable pub delta_of : Number → Number → BenchmarkDelta Number
  delta_of baseline current =
      let absolute = sub current baseline in
      record {
        baseline_median = baseline;
        current_median = current;
        absolute = absolute;
        percent = elim (n.compare baseline n.zero) [
          | Ordering.eq ↦ none
          | _ ↦ some (div absolute baseline)
        ];
      }

  unfoldable pub direction : BenchmarkDelta Number → Number → Direction
  direction change spread =
      if greater n.compare (abs change.absolute) spread
      then (if greater n.compare n.zero change.absolute then improved else regressed)
      else unchanged
