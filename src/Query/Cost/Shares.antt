-- ===== src/Query/Cost/Shares.antt =====
-- What the cost queries promise.
use codespine.Common.{
  ℕ, ◌+◌, ◌≡◌, ◌↔◌, refl, ◌∙◌, true, some, List, [], ◌∷◌, arith, Bool-cases, inl, inr, text_key,
  sum_by, if◌then◌else◌, Bool,
}
use codespine.Schema.{StoredNode}
use codespine.Query.Types.{Numbers, CallEdge}
use codespine.Query.Rows.{has_runtime}
use codespine.Query.Cost.Total.{arrays_of_total}
use codespine.Query.Components.Ends.{strongly_connected_components_ends}
use codespine.Query.Cost.{CostMetric, CostFlowGraph, static, runtime, CostModel, adjacency_of}
use codespine.Query.Cost.Model.{compute_cost_model, write_nodes, write_node, Arrays, empty_model}
use codespine.Query.Cost.Report.{resolve_flow_edges}

-- The edges that a flow graph names.
abbrev pub edges_by :
    {N : Type 0} → List (CallEdge N) → List (CallEdge N) → CostFlowGraph → List (CallEdge N)
edges_by calls runtime_calls static = calls
edges_by calls runtime_calls runtime = runtime_calls

-- A fallback happens exactly where runtime edges are requested and there are none; the flow is the
-- requested one, or the static one after a fallback.
abbrev pub IsFlowFor :
    {N : Type 0} → List (CallEdge N) → CostFlowGraph → CostFlowGraph → Bool → Type 0
IsFlowFor runtime_calls requested flow fell_back =
    ((fell_back ≡ true) ↔ ((requested ≡ runtime) × (runtime_calls ≡ [])))
    × (flow ≡ (if fell_back then static else requested))

-- Cost falls back exactly where runtime edges are requested and there are none. It flows along what
-- is requested, or along the static edges after a fallback, and its edges are those of that flow.
pub resolve_flow_edges-fallback :
    {N : Type 0} (calls runtime_calls : List (CallEdge N)) (requested : CostFlowGraph)
    → IsFlowFor runtime_calls requested
        (resolve_flow_edges calls runtime_calls requested).flow
        (resolve_flow_edges calls runtime_calls requested).fell_back
      × ((resolve_flow_edges calls runtime_calls requested).edges
          ≡ edges_by calls runtime_calls (resolve_flow_edges calls runtime_calls requested).flow)
unfolding resolve_flow_edges
resolve_flow_edges-fallback calls [] static = ground arith
resolve_flow_edges-fallback calls [] runtime = ground arith
resolve_flow_edges-fallback calls (e ∷ es) static = ground arith
resolve_flow_edges-fallback calls (e ∷ es) runtime = ground arith

module _ (n : Numbers) where
  open n use {Number, zero, add}

  write_node-measured :
      (all : List (StoredNode Number)) (a : Arrays n) (i : ℕ) (node : StoredNode Number)
      (model : CostModel Number)
      → (write_node n all a i node model).measured_nodes
        ≡ model.measured_nodes + (if has_runtime n node.metadata then 1 else 0)
  unfolding write_node
  write_node-measured all a i node model = elim (Bool-cases (has_runtime n node.metadata)) [
    | inl t ↦ rw t refl
    | inr f ↦ rw f (omega arith)
  ]

  write_nodes-measured :
      (all : List (StoredNode Number)) (a : Arrays n) (i : ℕ) (nodes : List (StoredNode Number))
      (model : CostModel Number)
      → (write_nodes n all a i nodes model).measured_nodes
        ≡ model.measured_nodes + sum_by (λ node. if has_runtime n node.metadata then 1 else 0) nodes
  unfolding write_nodes
  write_nodes-measured all a i [] model = omega arith
  write_nodes-measured all a i (node ∷ nodes) model = omega (
    arith,
    write_nodes-measured all a (i + 1) nodes (write_node n all a i node model),
    write_node-measured all a i node model,
  )

  -- The cost model exists for every graph: the loops end, and every node finds the component that it
  -- is counted in. The model counts the nodes that carry runtime metrics.
  pub compute_cost_model_total :
      (nodes : List (StoredNode Number)) (edges : List (CallEdge Number)) (metric : CostMetric)
      → (model : CostModel Number) × (compute_cost_model n nodes edges metric ≡ some model)
        × (model.measured_nodes
            ≡ sum_by (λ node. if has_runtime n node.metadata then 1 else 0) nodes)
  unfolding compute_cost_model
  compute_cost_model_total nodes edges metric =
      let (s, (e, h)) = strongly_connected_components_ends (adjacency_of nodes edges).successors in
      let (a, q) = arrays_of_total n nodes edges metric s e in
      (
        write_nodes n nodes a 0 nodes (empty_model n),
        rw (e, q, compute_cost_model) refl,
        write_nodes-measured nodes a 0 nodes (empty_model n) ∙ omega arith,
      )
