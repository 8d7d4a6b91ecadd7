-- ===== src/Benchmark.antt =====
-- src/benchmark/node_benchmark.ts: the loop that measures a node over the runs of a workload. Profiling
-- a run and the queries are parameters.
mod Stats
pub mod Runs
unfoldable pub use Stats.*
use Prim.Native.Nat.{compare, Ordering}
use codespine.Common.{
  ◌⊎◌, inl, inr, ℕ, zero, suc, ◌+◌, ◌-◌, ◌/◌, ◌%◌, Bool, true, false, ◌&&◌, Option, none, some,
  List, [], ◌∷◌, ◌++◌, map, Text, codes, length, get_or, if◌then◌else◌, text_eq, filter, take,
  get_elem?, nat_beq, ltb,
}
use codespine.Common.Int.{ℤ, pos, negsuc, clip}
use codespine.Common.Sort.{sort}
use codespine.Query.Types.{Numbers, greater, SymbolRef}
use codespine.Query.Clamp.{JsNumber, not_finite, finite}
use codespine.Query.Cost.{CostMetric, self_time, samples, CostRef, CostAttribution}

pub data BenchmarkMetric : Type 0 where
  by_self_time by_inclusive_time by_samples : BenchmarkMetric

-- What the functions throw; `run_failed` is what the profiling of a run threw, with its message.
pub data BenchmarkError : Type 0 where
  no_match : BenchmarkError
  ambiguous : List Text → BenchmarkError
  gone : Text → BenchmarkError
  no_runs : BenchmarkError
  run_failed : Text → BenchmarkError

pub data Attempt {ℓ} (A : Type ℓ) : Type ℓ where
  returns : A → Attempt A
  throws : BenchmarkError → Attempt A

module _ (N : Type 0) where
  pub record BenchmarkTarget : Type 0 where
    pub id : Text
    pub name : Text
    pub kind : Text
    pub file_path : Text
    pub start_line : ℕ

  pub record BenchmarkReport : Type 0 where
    pub target : BenchmarkTarget
    pub metric : BenchmarkMetric
    pub unit : Text
    pub stats : BenchmarkStatsSummary N
    pub change : Option (BenchmarkDelta N)

  pub record NodeBenchmarkOptions : Type 0 where
    pub target : Text
    pub metric : Option BenchmarkMetric
    pub runs : Option JsNumber
    pub baseline_median : Option N

-- Not finite is the default; else between 1 and 50.
unfoldable pub clamp_runs : JsNumber → ℕ
clamp_runs not_finite = 5
clamp_runs (finite (negsuc k)) = 1
clamp_runs (finite (pos k)) = if ltb k 1 then 1 else if ltb 50 k then 50 else k

unfoldable pub cost_metric_of : BenchmarkMetric → CostMetric
cost_metric_of by_samples = samples
cost_metric_of by_self_time = self_time
cost_metric_of by_inclusive_time = self_time

module _ (n : Numbers) (sub : n.Number → n.Number → n.Number) (abs : n.Number → n.Number) where
  open n use {Number, of_ℕ, add, div}

  unfoldable pub to_target : SymbolRef Number → BenchmarkTarget Number
  to_target ref = record {
    id = ref.id;
    name = ref.name;
    kind = ref.kind;
    file_path = ref.file_path;
    start_line = ref.start_line;
  }

  -- `exact.length === 1 ? exact[0] : matches.length === 1 ? matches[0] : null`
  unfoldable pub choose_target :
      List (SymbolRef Number) → List (SymbolRef Number) → Option (SymbolRef Number)
  choose_target (only ∷ []) matches = some only
  choose_target [] (only ∷ []) = some only
  choose_target [] [] = none
  choose_target [] (a ∷ b ∷ matches) = none
  choose_target (a ∷ b ∷ exact) (only ∷ []) = some only
  choose_target (a ∷ b ∷ exact) [] = none
  choose_target (a ∷ b ∷ exact) (c ∷ d ∷ matches) = none

  -- `matches` is what `find` answers with.
  unfoldable pub resolve_target : Text → List (SymbolRef Number) → Attempt (BenchmarkTarget Number)
  resolve_target target [] = throws no_match
  resolve_target target (match ∷ others) =
      let matches = match ∷ others in
      let exact = filter (λ (m : SymbolRef Number). text_eq m.name target) matches in
      elim (choose_target exact matches) [
        | some chosen ↦ returns (to_target chosen)
        | none ↦ throws (
            ambiguous (
              map (λ (m : SymbolRef Number). m.id)
                (take 8 (if ltb 0 (length exact) then exact else matches))))
      ]

  -- The metric of a node, where there is one.
  unfoldable pub read_node : Text → BenchmarkMetric → Option (CostRef Number) → Attempt Number
  read_node id metric none = throws (gone id)
  read_node id by_inclusive_time (some node) = returns node.inclusive_cost
  read_node id by_self_time (some node) = returns node.self_cost
  read_node id by_samples (some node) = returns node.self_cost

  -- The metric of the node that the attribution is about.
  unfoldable pub read_metric : Text → BenchmarkMetric → CostAttribution Number → Attempt Number
  read_metric id metric attribution = read_node id metric attribution.node

  module _ {World : Type 0} (find : World → Text → List (SymbolRef Number))
      (cost_attribution : World → Text → CostMetric → CostAttribution Number)
      (profile_run : ℕ → World → Text ⊎ World) where
    -- The runs that are left, from one on, with the values that are read so far.
    unfoldable pub measure_runs :
        Text → BenchmarkMetric → ℕ → ℕ → World → List Number → Attempt (List Number × World)
    measure_runs id metric zero run world values = returns (values, world)
    measure_runs id metric (suc left) run world values = elim (profile_run run world) [
      | inl message ↦ throws (run_failed message)
      | inr profiled ↦
          elim (read_metric id metric (cost_attribution profiled id (cost_metric_of metric))) [
            | throws error ↦ throws error
            | returns value ↦ measure_runs id metric left (suc run) profiled (values ++ value ∷ [])
          ]
    ]

    unfoldable pub report_of :
        NodeBenchmarkOptions Number
        → BenchmarkTarget Number
        → BenchmarkMetric
        → Option (BenchmarkStatsSummary Number)
        → Attempt (BenchmarkReport Number)
    report_of options target metric none = throws no_runs
    report_of options target metric (some stats) = returns (record {
      target = target;
      metric = metric;
      unit = elim metric [ by_samples ↦ codes "samples" | _ ↦ codes "ms" ];
      stats = stats;
      change = elim options.baseline_median [
        | none ↦ none
        | some baseline ↦ some (delta_of n sub abs baseline stats.median)
      ];
    })

    unfoldable pub measure_target :
        NodeBenchmarkOptions Number
        → World
        → BenchmarkTarget Number
        → Attempt (BenchmarkReport Number)
    measure_target options world target =
        let metric = get_or options.metric by_self_time in
        let runs = clamp_runs (get_or options.runs (finite (pos 5))) in
        elim (measure_runs target.id metric runs 0 world []) [
          | throws error ↦ throws error
          | returns (values, after) ↦
              report_of options target metric (summarize_runs n sub abs values)
        ]

    unfoldable pub measure : NodeBenchmarkOptions Number → World → Attempt (BenchmarkReport Number)
    measure options world = elim (resolve_target options.target (find world options.target)) [
      | throws error ↦ throws error
      | returns target ↦ measure_target options world target
    ]
