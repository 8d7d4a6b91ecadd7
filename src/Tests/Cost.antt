-- ===== src/Tests/Cost.antt =====
-- Cost on a call graph with a cycle: a calls b, b and c call each other, b calls d.
use mathlib.Core.List.{Perm}
use codespine.Query.Components.{Tarjan, strongly_connected_components}
use codespine.Common.{
  map, filter, ltb, All, length, ◌<◌, ℕ, ◌≡◌, none, some, List, [], ◌∷◌, codes, text_key, sum_by,
  if◌then◌else◌, get_or,
}
use codespine.Common.Sort.{IsSorted}
use codespine.Schema.{StoredNode}
use codespine.Query.Types.{CallEdge}
use codespine.Query.Rows.{has_runtime}
use codespine.Query.Cost.{self_time, static, runtime, CostModel, CostAttribution}
use codespine.Query.Cost.Model.{compute_cost_model}
use codespine.Query.Cost.Report.{CostOptions, resolve_flow_edges, cost_attribution}
use codespine.Query.Cost.Shares.{
  IsFlowFor, edges_by, resolve_flow_edges-fallback, compute_cost_model_total,
}
use codespine.Query.Types.{SymbolRef}
use codespine.Query.Cost.Cycles.{by_size, symbols_at, strong_cycles}
use codespine.Query.Cost.Cycles.Members.{cycle_graph, IsGrouping, strong_cycles-IsSorted}
use codespine.Query.Cost.Breakdown.{IsBreakdown, cost_attribution-IsBreakdown}
use codespine.Tests.Samples.{naturals, code_units, stored, measured, call}

abbrev nodes : List (StoredNode ℕ)
nodes =
    stored "a" 1 []
    ∷ stored "b" 4 (measured 5)
    ∷ stored "c" 7 (measured 8)
    ∷ stored "d" 9 (measured 20)
    ∷ []

abbrev calls : List (CallEdge ℕ)
calls = call "a" "b" 2 ∷ call "b" "c" 1 ∷ call "c" "b" 5 ∷ call "b" "d" 1 ∷ []

abbrev options : CostOptions
options = record { by = none; edges = some runtime; limit = none }

resolve_flow_edges-fallback_example :
    IsFlowFor {N = ℕ} [] runtime
      (resolve_flow_edges calls [] runtime).flow
      (resolve_flow_edges calls [] runtime).fell_back
    × ((resolve_flow_edges calls [] runtime).edges
        ≡ edges_by calls [] (resolve_flow_edges calls [] runtime).flow)
resolve_flow_edges-fallback_example = resolve_flow_edges-fallback calls [] runtime

compute_cost_model_total_example :
    (model : CostModel ℕ) × (compute_cost_model naturals nodes calls self_time ≡ some model)
    × (model.measured_nodes
        ≡ sum_by (λ node. if has_runtime naturals node.metadata then 1 else 0) nodes)
compute_cost_model_total_example = compute_cost_model_total naturals nodes calls self_time

cost_attribution-IsBreakdown_example :
    (model : CostModel ℕ) × (a : CostAttribution ℕ) × (cost_attribution naturals code_units nodes
        calls [] none options
        (codes "b")
      ≡ some a)
    × (compute_cost_model naturals nodes (edges_by calls [] a.edges) a.metric ≡ some model)
    × (a.metric ≡ get_or options.by self_time)
    × IsFlowFor {N = ℕ} [] (get_or options.edges static) a.edges a.fell_back
    × IsBreakdown naturals code_units nodes calls [] none options (codes "b") model a
cost_attribution-IsBreakdown_example =
    cost_attribution-IsBreakdown naturals code_units nodes calls [] none options (codes "b")

strong_cycles-IsSorted_example :
    (cycles : List (List (SymbolRef ℕ))) × (s : Tarjan) × (groups : List (List ℕ)) × (strong_cycles
        nodes calls
      ≡ some cycles)
    × (strongly_connected_components (cycle_graph nodes calls) ≡ some s)
    × IsGrouping nodes s groups
    × Perm cycles (map (symbols_at nodes) (filter (λ group. ltb 1 (length group)) groups))
    × All (λ c. 1 < length c) cycles
    × IsSorted by_size cycles
strong_cycles-IsSorted_example = strong_cycles-IsSorted nodes calls
