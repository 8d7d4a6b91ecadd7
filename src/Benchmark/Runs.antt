-- ===== src/Benchmark/Runs.antt =====
-- The runs that a benchmark measures, and what it throws.
use codespine.Common.{
  ℕ, zero, suc, ◌+◌, ◌-◌, ◌/◌, ◌%◌, ◌≤◌, ◌<◌, ◌≡◌, ◌⊎◌, refl, sym, ap, subst, Option, none, some,
  List, [], ◌∷◌, ◌++◌, Text, inl, inr, Bool-cases, Option-cases, arith, length, length-append,
  get_elem?, get_or, nat_beq, take, ltb, map, filter, if◌then◌else◌, text_eq,
}
use codespine.Common.Int.{pos}
use codespine.Common.Sort.{sort, length-sort}
use codespine.Query.Types.{Numbers, SymbolRef}
use codespine.Query.Clamp.{JsNumber, finite}
use codespine.Query.Cost.{CostMetric, CostAttribution, CostRef}
use codespine.Benchmark.{
  BenchmarkError, no_match, ambiguous, gone, no_runs, run_failed, Attempt, returns, throws,
  BenchmarkStatsSummary, BenchmarkTarget, BenchmarkReport, NodeBenchmarkOptions, BenchmarkMetric,
  by_self_time, to_target, middle, median_of, summary_of, summarize_runs, resolve_target,
  choose_target, read_node, read_metric, cost_metric_of, measure_runs, clamp_runs, report_of,
  measure_target, measure,
}

get_elem?_bound {ℓ} :
    {A : Type ℓ} (xs : List A) (i : ℕ) → i < length xs → (x : A) × (get_elem? xs i ≡ some x)
get_elem?_bound [] i h = absurd (omega (arith, h))
get_elem?_bound (x ∷ xs) zero h = (x, refl)
get_elem?_bound (x ∷ xs) (suc i) h = get_elem?_bound xs i (omega (arith, h))

clamp_runs-bounds : (runs : JsNumber) → (1 ≤ clamp_runs runs) × (clamp_runs runs ≤ 50)
unfolding clamp_runs
clamp_runs-bounds runs = (ground arith, ground arith)

module _ (n : Numbers) (sub : n.Number → n.Number → n.Number) (abs : n.Number → n.Number) where
  open n use {Number}

  middle-some : (xs : List Number) → 0 < length xs → (m : Number) × (middle n sub abs xs ≡ some m)
  unfolding middle
  middle-some xs h =
      let mid = length xs / 2 in
      elim (Bool-cases (nat_beq (length xs % 2) 1)) [
        | inl t ↦ let (x, e) = get_elem?_bound xs mid (omega (arith, h)) in (x, rw (t, e) refl)
        | inr f ↦
            let even : length xs % 2 ≡ 0 = ground (arith, f) in
            let (a, p) = get_elem?_bound xs (mid - 1) (omega (arith, h, even)) in
            let (b, q) = get_elem?_bound xs mid (omega (arith, h)) in
            (n.div (n.add a b) (n.of_ℕ 2), rw (f, p, q) refl)
      ]

  -- Values always have a summary, of as many runs as there are values.
  summarize_runs-some :
      (value : Number) (values : List Number)
      → (s : BenchmarkStatsSummary Number) × (summarize_runs n sub abs (value ∷ values) ≡ some s)
        × (s.runs ≡ suc (length values))
        × (s.values ≡ value ∷ values)
  unfolding summarize_runs median_of summary_of
  summarize_runs-some value values =
      let sorted = sort n.compare (value ∷ values) in
      let (m, e) = middle-some sorted (omega (arith, length-sort n.compare (value ∷ values))) in
      let q : median_of n sub abs (value ∷ values) ≡ some m = e in
      (summary_of n sub abs value values m, rw (q, summarize_runs) refl, refl, refl)

  read_node-cases :
      (id : Text) (metric : BenchmarkMetric) (o : Option (CostRef Number))
      → (read_node n sub abs id metric o ≡ throws (gone id))
        ⊎ ((v : Number) × (read_node n sub abs id metric o ≡ returns v))
  unfolding read_node
  read_node-cases id metric none = inl refl
  read_node-cases id BenchmarkMetric.by_inclusive_time (some node) = inr (node.inclusive_cost, refl)
  read_node-cases id BenchmarkMetric.by_self_time (some node) = inr (node.self_cost, refl)
  read_node-cases id BenchmarkMetric.by_samples (some node) = inr (node.self_cost, refl)

  read_metric-cases :
      (id : Text) (metric : BenchmarkMetric) (a : CostAttribution Number)
      → (read_metric n sub abs id metric a ≡ throws (gone id))
        ⊎ ((v : Number) × (read_metric n sub abs id metric a ≡ returns v))
  unfolding read_metric
  read_metric-cases id metric a = read_node-cases id metric a.node

  module _ {World : Type 0} (find : World → Text → List (SymbolRef Number))
      (cost_attribution : World → Text → CostMetric → CostAttribution Number)
      (profile_run : ℕ → World → Text ⊎ World) where
    -- One of the runs below a bound threw a message, in the world that it met.
    abbrev pub RunThrew : ℕ → Text → Type 0
    RunThrew bound message =
        (run : ℕ) × (world : World) × (run < bound) × (profile_run run world ≡ inl message)

    -- What a loop over the runs up to a bound comes to: it throws what one of them threw or that the
    -- node is gone, or it ends with as many values as there were runs left, behind those that were
    -- read before.
    abbrev CountsRuns : ℕ → ℕ → List Number → Attempt (List Number × World) → Type 0
    CountsRuns bound left before (throws no_match) = ⊥
    CountsRuns bound left before (throws (ambiguous ids)) = ⊥
    CountsRuns bound left before (throws (gone id)) = Unit
    CountsRuns bound left before (throws no_runs) = ⊥
    CountsRuns bound left before (throws (run_failed message)) = RunThrew bound message
    CountsRuns bound left before (returns (values, world)) = length values ≡ length before + left

    abbrev attribution_of : Text → BenchmarkMetric → World → CostAttribution Number
    attribution_of id metric profiled = cost_attribution profiled id (cost_metric_of metric)

    module _ (id : Text) (metric : BenchmarkMetric) (left run : ℕ) (world : World)
        (values : List Number) where
      abbrev runs_on : Attempt (List Number × World)
      runs_on =
          measure_runs n sub abs find cost_attribution profile_run id metric (suc left) run world
            values

      measure_runs_fail :
          (message : Text)
          → profile_run run world ≡ inl message
          → runs_on ≡ throws (run_failed message)
      unfolding measure_runs
      measure_runs_fail message e = rw (e, measure_runs) refl

      module _ (profiled : World) (p : profile_run run world ≡ inr profiled) where
        measure_runs_throw :
            (error : BenchmarkError)
            → read_metric n sub abs id metric (attribution_of id metric profiled) ≡ throws error
            → runs_on ≡ throws error
        unfolding measure_runs
        measure_runs_throw error e = rw (p, e, measure_runs) refl

        measure_runs_go :
            (v : Number)
            → read_metric n sub abs id metric (attribution_of id metric profiled) ≡ returns v
            → runs_on
              ≡ measure_runs n sub abs find cost_attribution profile_run id metric left
                  (suc run)
                  profiled
                  (values ++ v ∷ [])
        unfolding measure_runs
        measure_runs_go v e = rw (p, e, measure_runs) refl

    one_more :
        (bound left : ℕ) (values : List Number) (v : Number) (a : Attempt (List Number × World))
        → CountsRuns bound left (values ++ v ∷ []) a
        → CountsRuns bound (suc left) values a
    one_more bound left values v (throws no_match) h = h
    one_more bound left values v (throws (ambiguous ids)) h = h
    one_more bound left values v (throws (gone id)) h = h
    one_more bound left values v (throws no_runs) h = h
    one_more bound left values v (throws (run_failed message)) h = h
    one_more bound left values v (returns (all_values, world)) h =
        omega (arith, h, length-append values (v ∷ []))

    measure_runs-CountsRuns :
        (id : Text) (metric : BenchmarkMetric) (bound left run : ℕ) (world : World)
        (values : List Number)
        → run + left ≡ bound
        → CountsRuns bound left values (
            measure_runs n sub abs find cost_attribution profile_run id metric left run world
              values)
    unfolding measure_runs
    measure_runs-CountsRuns id metric bound zero run world values b = omega arith
    measure_runs-CountsRuns id metric bound (suc left) run world values b =
        let Goal = CountsRuns bound (suc left) values in
        elim (profile_run-cases run world) [
          | inl (message, p) ↦
              subst Goal (sym (measure_runs_fail id metric left run world values message p))
                (run, world, omega (arith, b), p)
          | inr (profiled, p) ↦
              elim (read_metric-cases id metric (attribution_of id metric profiled)) [
                | inl e ↦
                    subst Goal
                      (sym
                        (measure_runs_throw id metric left run world values profiled p (gone id) e))
                      tt
                | inr (v, e) ↦
                    subst Goal
                      (sym (measure_runs_go id metric left run world values profiled p v e))
                      (one_more bound left values v _ (
                        measure_runs-CountsRuns id metric bound left (suc run) profiled
                          (values ++ v ∷ []) (omega (arith, b))))
              ]
        ]
      where
        sum_cases : (r : Text ⊎ World) → ((m : Text) × (r ≡ inl m)) ⊎ ((w : World) × (r ≡ inr w))
        sum_cases (inl m) = inl (m, refl)
        sum_cases (inr w) = inr (w, refl)

        profile_run-cases :
            (run : ℕ) (world : World)
            → ((m : Text) × (profile_run run world ≡ inl m))
              ⊎ ((w : World) × (profile_run run world ≡ inr w))
        profile_run-cases run world = sum_cases (profile_run run world)

    -- A measurement throws only what one of its runs threw, or where the target is not one node of
    -- the graph, before or after a run; a report has the asked number of runs, and a value for each.
    abbrev pub Measured : ℕ → Attempt (BenchmarkReport Number) → Type 0
    Measured runs (throws no_match) = Unit
    Measured runs (throws (ambiguous ids)) = Unit
    Measured runs (throws (gone id)) = Unit
    Measured runs (throws no_runs) = ⊥
    Measured runs (throws (run_failed message)) = RunThrew runs message
    Measured runs (returns report) =
        (report.stats.runs ≡ runs) × (length report.stats.values ≡ runs)

    -- What follows the loop over the runs.
    abbrev after_runs :
        NodeBenchmarkOptions Number
        → BenchmarkTarget Number
        → Attempt (List Number × World)
        → Attempt (BenchmarkReport Number)
    after_runs options target measured = elim measured [
      | throws error ↦ throws error
      | returns (values, after) ↦
          report_of n sub abs find cost_attribution profile_run options target
            (get_or options.metric by_self_time) (summarize_runs n sub abs values)
    ]

    after_runs-Measured :
        (options : NodeBenchmarkOptions Number) (target : BenchmarkTarget Number) (runs : ℕ)
        (a : Attempt (List Number × World))
        → 1 ≤ runs
        → CountsRuns runs runs [] a
        → Measured runs (after_runs options target a)
    unfolding report_of
    after_runs-Measured options target runs (throws no_match) enough h = tt
    after_runs-Measured options target runs (throws (ambiguous ids)) enough h = tt
    after_runs-Measured options target runs (throws (gone id)) enough h = tt
    after_runs-Measured options target runs (throws no_runs) enough h = h
    after_runs-Measured options target runs (throws (run_failed message)) enough h = h
    after_runs-Measured options target runs (returns ([], world)) enough h =
        absurd (omega (arith, enough, h))
    after_runs-Measured options target runs (returns (v ∷ vs, world)) enough h =
        let (s, e, count, all_values) = summarize_runs-some v vs in
        let report =
          report_of n sub abs find cost_attribution profile_run options target
            (get_or options.metric by_self_time) in
        subst (λ o. Measured runs (report o)) (sym e)
          (omega (arith, count, h), omega (arith, h, ap (λ (k : List Number). length k) all_values))

    resolve_target-cases :
        (target : Text) (matches : List (SymbolRef Number))
        → ((ids : List Text) × (resolve_target n sub abs target matches ≡ throws (ambiguous ids)))
          ⊎ ((resolve_target n sub abs target matches ≡ throws no_match)
              ⊎ ((t : BenchmarkTarget Number) × (resolve_target n sub abs target matches
                    ≡ returns t)))
    unfolding resolve_target
    resolve_target-cases target [] = inr (inl refl)
    resolve_target-cases target (m ∷ ms) =
        let exact = filter (λ (x : SymbolRef Number). text_eq x.name target) (m ∷ ms) in
        elim (Option-cases (choose_target n sub abs exact (m ∷ ms))) [
          | inl e ↦ inl (
            map (λ (x : SymbolRef Number). x.id)
                (take 8 (if ltb 0 (length exact) then exact else m ∷ ms)),
            rw (e, resolve_target) refl,
          )
          | inr (chosen, e) ↦ inr (inr (to_target n sub abs chosen, rw (e, resolve_target) refl))
        ]

    -- What follows the resolution of the target.
    abbrev after_target :
        NodeBenchmarkOptions Number
        → World
        → Attempt (BenchmarkTarget Number)
        → Attempt (BenchmarkReport Number)
    after_target options world resolved = elim resolved [
      | throws error ↦ throws error
      | returns target ↦
          measure_target n sub abs find cost_attribution profile_run options world target
    ]

    -- With queries that answer, a benchmark throws only what the profiling of one of its runs throws,
    -- or that the target matches no node, is ambiguous, or is no longer in the graph after a run,
    -- never that there are no runs to summarize; else its report has as many runs as were asked for,
    -- between 1 and 50, and a value for each of them.
    pub measure-Measured :
        (options : NodeBenchmarkOptions Number) (world : World)
        → Measured
            (clamp_runs (get_or options.runs (finite (pos 5))))
            (measure n sub abs find cost_attribution profile_run options world)
          × (1 ≤ clamp_runs (get_or options.runs (finite (pos 5))))
          × (clamp_runs (get_or options.runs (finite (pos 5))) ≤ 50)
    unfolding measure measure_target
    measure-Measured options world =
        let asked = get_or options.runs (finite (pos 5)) in
        let runs = clamp_runs asked in
        let bounds = clamp_runs-bounds asked in
        let metric = get_or options.metric by_self_time in
        let measured : Measured runs
            (measure n sub abs find cost_attribution profile_run options world) =
          elim (resolve_target-cases options.target (find world options.target)) [
            | inl (ids, e) ↦ subst (λ r. Measured runs (after_target options world r)) (sym e) tt
            | inr (inl e) ↦ subst (λ r. Measured runs (after_target options world r)) (sym e) tt
            | inr (inr (target, e)) ↦
                subst (λ r. Measured runs (after_target options world r)) (sym e)
                  (after_runs-Measured options target runs
                    (measure_runs n sub abs find cost_attribution profile_run target.id metric runs
                      0 world [])
                    bounds.0
                    (measure_runs-CountsRuns target.id metric runs runs 0 world [] (omega arith)))
          ] in
        (measured, bounds.0, bounds.1)
