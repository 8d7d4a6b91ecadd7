-- ===== src/Query/Cost.antt =====
-- The cost model of src/query/graph_query.ts: self cost propagated along calls. This file has the
-- types and the index-based adjacency; `Model` is `computeCostModel`, `Report` has its queries.
pub mod Model
pub mod Report
mod Total
pub mod Shares
pub mod Cycles
mod Flows
pub mod Breakdown
use codespine.Common.{
  ℕ, ◌+◌, Bool, Option, none, some, List, [], ◌∷◌, ◌++◌, map, Text, if◌then◌else◌, nat_beq,
  get_elem?, set, text_key,
}
use codespine.Common.JsMap
use codespine.Common.JsMap.{JsMap}
use codespine.Schema.{StoredNode}
use codespine.Query.Types.{SymbolRef, CallEdge}

pub data CostMetric : Type 0 where
  self_time samples : CostMetric

pub data CostFlowGraph : Type 0 where
  static runtime : CostFlowGraph

pub record CostRef (N : Type 0) : Type 0 where
  pub symbol : SymbolRef N
  pub self_cost : N
  pub inclusive_cost : N
  pub share_of_total : N
  pub cyclic : Bool
  pub cycle_size : ℕ

pub record CostReport (N : Type 0) : Type 0 where
  pub metric : CostMetric
  pub edges : CostFlowGraph
  pub fell_back : Bool
  pub enriched : Bool
  pub total_self : N
  pub measured_nodes : ℕ
  pub coverage : Option N
  pub nodes : List (CostRef N)

-- A caller or a callee of the focal node.
pub record CostFlow (N : Type 0) : Type 0 where
  pub symbol : SymbolRef N
  pub amount : N
  pub share : N
  pub call_count : N

pub record CostAttribution (N : Type 0) : Type 0 where
  pub metric : CostMetric
  pub edges : CostFlowGraph
  pub fell_back : Bool
  pub enriched : Bool
  pub total_self : N
  pub coverage : Option N
  pub node : Option (CostRef N)
  pub callees : List (CostFlow N)
  pub callers : List (CostFlow N)

-- The value of `componentOf` is `none` where the source has -1.
pub record CostModel (N : Type 0) : Type 0 where
  pub total_self : N
  pub measured_nodes : ℕ
  pub self_cost : JsMap Text N
  pub inclusive_cost : JsMap Text N
  pub component_of : JsMap Text (Option ℕ)
  pub cycle_size : JsMap Text ℕ
  pub external_inbound : JsMap Text N
  pub out_edges : JsMap Text (List (CallEdge N))
  pub in_edges : JsMap Text (List (CallEdge N))

-- `xs[i] = f(xs[i])`, nothing out of range.
abbrev pub update {ℓ} : {A : Type ℓ} → List A → ℕ → (A → A) → List A
update xs i f = elim (get_elem? xs i) [ none ↦ xs | some x ↦ set xs i (f x) ]

-- `xs[i].push(x)`
abbrev pub push_at {ℓ} : {A : Type ℓ} → List (List A) → ℕ → A → List (List A)
push_at xs i x = update xs i (λ bucket. bucket ++ (x ∷ []))

-- The other end of an edge, by its index, and the weight.
pub record Link (N : Type 0) : Type 0 where
  pub node : ℕ
  pub count : N

pub record Adjacency (N : Type 0) : Type 0 where
  pub successors : List (List ℕ)
  pub out_edges : List (List (Link N))
  pub in_edges : List (List (Link N))

module _ {N : Type 0} where
  -- `nodes.forEach((node, i) => indexOf.set(node.id, i))`, from index `i` on.
  unfoldable pub index_of_nodes : JsMap Text ℕ → ℕ → List (StoredNode N) → JsMap Text ℕ
  index_of_nodes m i [] = m
  index_of_nodes m i (node ∷ nodes) = index_of_nodes (JsMap.set m node.id i) (i + 1) nodes

  -- Self-edges and edges that touch an unknown node are dropped.
  unfoldable pub resolve_ends : JsMap Text ℕ → CallEdge N → Option (ℕ × ℕ)
  resolve_ends index_of edge = elim (JsMap.get index_of edge.from_id) [
    | none ↦ none
    | some from ↦ elim (JsMap.get index_of edge.to_id) [
      | none ↦ none
      | some to ↦ if nat_beq from to then none else some (from, to)
    ]
  ]

  unfoldable pub add_link : JsMap Text ℕ → CallEdge N → Adjacency N → Adjacency N
  unfolding resolve_ends
  add_link index_of edge adj = elim (resolve_ends index_of edge) [
    | none ↦ adj
    | some (from, to) ↦ record {
      successors = push_at adj.successors from to;
      out_edges = push_at adj.out_edges from (record { node = to; count = edge.count });
      in_edges = push_at adj.in_edges to (record { node = from; count = edge.count });
    }
  ]

  unfoldable pub link_edges : JsMap Text ℕ → Adjacency N → List (CallEdge N) → Adjacency N
  link_edges index_of adj [] = adj
  link_edges index_of adj (edge ∷ edges) = link_edges index_of (add_link index_of edge adj) edges

  unfoldable pub adjacency_of : List (StoredNode N) → List (CallEdge N) → Adjacency N
  unfolding link_edges index_of_nodes
  adjacency_of nodes edges =
      link_edges (index_of_nodes [] 0 nodes)
        (record {
          successors = map (λ node. []) nodes;
          out_edges = map (λ node. []) nodes;
          in_edges = map (λ node. []) nodes;
        })
        edges
