-- ===== src/Query/Cost/Report.antt =====
-- `costRanking`, `costAttribution`, `resolveFlowEdges`, `toCostRef` and `coverageFor` of
-- src/query/graph_query.ts. The nodes, the edges of both kinds and the manifest are what the store
-- answers with.
use Prim.Native.Nat.{compare, Ordering}
use codespine.Common.{
  ℕ, Bool, true, false, Option, none, some, List, [], ◌∷◌, map, Text, get_or, if◌then◌else◌, ltb,
  filter, text_key,
}
use codespine.Common.Sort.{or_else, top, sort}
use codespine.Common.JsMap
use codespine.Common.JsMap.{JsMap}
use codespine.Schema.{StoredNode}
use codespine.Query.Types.{Numbers, Collation, greater, symbol_of, CallEdge}
use codespine.Query.Clamp.{JsNumber, clamp_limit}
use codespine.Query.Hotspots.{is_enriched}
use codespine.Query.Cost.{
  CostMetric, self_time, samples, CostFlowGraph, static, runtime, CostRef, CostReport, CostFlow,
  CostAttribution, CostModel,
}
use codespine.Query.Cost.Model.{compute_cost_model, same_component}

pub record CostOptions : Type 0 where
  pub by : Option CostMetric
  pub edges : Option CostFlowGraph
  pub limit : Option JsNumber

-- src/schema/runtime_manifest.ts
pub record RuntimeManifest (N : Type 0) : Type 0 where
  pub source : Text
  pub total_samples : N
  pub matched_samples : N
  pub total_self_micros : N
  pub matched_self_micros : N

pub record FlowEdges (N : Type 0) : Type 0 where
  pub edges : List (CallEdge N)
  pub flow : CostFlowGraph
  pub fell_back : Bool

-- `calls` are the `CALLS` edges and `runtime_calls` the `CALLS_RUNTIME` edges.
unfoldable pub resolve_flow_edges :
    {N : Type 0} → List (CallEdge N) → List (CallEdge N) → CostFlowGraph → FlowEdges N
resolve_flow_edges calls runtime_calls static = record {
  edges = calls;
  flow = static;
  fell_back = false;
}
resolve_flow_edges calls [] runtime = record { edges = calls; flow = static; fell_back = true }
resolve_flow_edges calls (e ∷ es) runtime = record {
  edges = e ∷ es;
  flow = runtime;
  fell_back = false;
}

module _ (n : Numbers) where
  open n use {Number, zero, mul, div}

  -- `a > 0 ? b : 0`
  abbrev pub if_positive : Number → Number → Number
  if_positive a b = if greater n.compare a zero then b else zero

  unfoldable pub coverage_for : Option (RuntimeManifest Number) → CostMetric → Option Number
  coverage_for none metric = none
  coverage_for (some m) samples =
      if greater n.compare m.total_samples zero
      then some (div m.matched_samples m.total_samples)
      else none
  coverage_for (some m) self_time =
      if greater n.compare m.total_self_micros zero
      then some (div m.matched_self_micros m.total_self_micros)
      else none

  unfoldable pub to_cost_ref : CostModel Number → StoredNode Number → CostRef Number
  to_cost_ref model node =
      let inclusive = get_or (JsMap.get model.inclusive_cost node.id) zero in
      let cycle_size = get_or (JsMap.get model.cycle_size node.id) 1 in
      record {
        symbol = symbol_of node;
        self_cost = get_or (JsMap.get model.self_cost node.id) zero;
        inclusive_cost = inclusive;
        share_of_total = if_positive model.total_self (div inclusive model.total_self);
        cyclic = ltb 1 cycle_size;
        cycle_size = cycle_size;
      }

  -- `componentOf.get(id)`
  abbrev pub component_in : CostModel Number → Text → Option ℕ
  component_in model id = get_or (JsMap.get model.component_of id) none

  module _ (model : CostModel Number) (nodes : JsMap Text (StoredNode Number)) where
    -- The callees of a node outside its component, of inclusive cost `inclusive`.
    unfoldable pub callee_flows :
        Option ℕ → Number → List (CallEdge Number) → List (CostFlow Number)
    unfolding same_component
    callee_flows component inclusive [] = []
    callee_flows component inclusive (edge ∷ edges) =
        let rest = callee_flows component inclusive edges in
        if same_component (component_in model edge.to_id) component
        then rest
        else elim (JsMap.get nodes edge.to_id) [
          | none ↦ rest
          | some callee ↦
              let inbound = get_or (JsMap.get model.external_inbound edge.to_id) zero in
              let callee_inclusive = get_or (JsMap.get model.inclusive_cost edge.to_id) zero in
              let amount = if_positive inbound (div (mul callee_inclusive edge.count) inbound) in
              record {
                symbol = symbol_of callee;
                amount = amount;
                share = if_positive inclusive (div amount inclusive);
                call_count = edge.count;
              }
              ∷ rest
        ]

    -- The callers of a node outside its component, of inbound weight `inbound`.
    unfoldable pub caller_flows :
        Option ℕ → Number → Number → List (CallEdge Number) → List (CostFlow Number)
    unfolding same_component
    caller_flows component inclusive inbound [] = []
    caller_flows component inclusive inbound (edge ∷ edges) =
        let rest = caller_flows component inclusive inbound edges in
        if same_component (component_in model edge.from_id) component
        then rest
        else elim (JsMap.get nodes edge.from_id) [
          | none ↦ rest
          | some caller ↦
              record {
                symbol = symbol_of caller;
                amount = if_positive inbound (div (mul inclusive edge.count) inbound);
                share = if_positive inbound (div edge.count inbound);
                call_count = edge.count;
              }
              ∷ rest
        ]

  -- `new Map(nodes.map((node) => [node.id, node]))`
  unfoldable pub node_by_id :
      JsMap Text (StoredNode Number) → List (StoredNode Number) → JsMap Text (StoredNode Number)
  node_by_id m [] = m
  node_by_id m (node ∷ nodes) = node_by_id (JsMap.set m node.id node) nodes

  module _ (c : Collation) where
    abbrev pub by_inclusive : CostRef Number → CostRef Number → Ordering
    by_inclusive a b = or_else (n.compare b.inclusive_cost a.inclusive_cost) (
        or_else (c.locale_compare a.symbol.file_path b.symbol.file_path)
          (compare a.symbol.start_line b.symbol.start_line))

    abbrev pub by_amount : CostFlow Number → CostFlow Number → Ordering
    by_amount a b = or_else (n.compare b.amount a.amount) (
        or_else (c.locale_compare a.symbol.file_path b.symbol.file_path)
          (compare a.symbol.start_line b.symbol.start_line))

    -- The references of the nodes that cost something.
    unfoldable pub costly : CostModel Number → List (StoredNode Number) → List (CostRef Number)
    unfolding to_cost_ref
    costly model nodes =
        filter (λ ref. greater n.compare ref.inclusive_cost zero) (map (to_cost_ref model) nodes)

    module _ (nodes : List (StoredNode Number)) (calls runtime_calls : List (CallEdge Number))
        (manifest : Option (RuntimeManifest Number)) (options : CostOptions) where
      abbrev pub metric_of : CostMetric
      metric_of = get_or options.by self_time

      abbrev pub flow_of : FlowEdges Number
      flow_of = resolve_flow_edges calls runtime_calls (get_or options.edges static)

      abbrev pub ranking_from : CostModel Number → CostReport Number
      ranking_from model = record {
        metric = metric_of;
        edges = flow_of.flow;
        fell_back = flow_of.fell_back;
        enriched = is_enriched n nodes;
        total_self = model.total_self;
        measured_nodes = model.measured_nodes;
        coverage = coverage_for manifest metric_of;
        nodes = top by_inclusive (clamp_limit options.limit) (costly model nodes);
      }

      unfoldable pub cost_ranking : Option (CostReport Number)
      unfolding costly
      cost_ranking = elim (compute_cost_model n nodes flow_of.edges metric_of) [
        | none ↦ none
        | some model ↦ some (ranking_from model)
      ]

      abbrev pub attribution_from : Text → CostModel Number → CostAttribution Number
      attribution_from id model =
          let by_id = node_by_id [] nodes in
          let component = component_in model id in
          let focal = JsMap.get by_id id in
          let inclusive = get_or (JsMap.get model.inclusive_cost id) zero in
          let inbound = get_or (JsMap.get model.external_inbound id) zero in
          let callees =
            callee_flows model by_id component inclusive
              (get_or (JsMap.get model.out_edges id) []) in
          let callers =
            caller_flows model by_id component inclusive inbound
              (get_or (JsMap.get model.in_edges id) []) in
          record {
            metric = metric_of;
            edges = flow_of.flow;
            fell_back = flow_of.fell_back;
            enriched = is_enriched n nodes;
            total_self = model.total_self;
            coverage = coverage_for manifest metric_of;
            node = elim focal [ none ↦ none | some node ↦ some (to_cost_ref model node) ];
            callees = elim focal [ none ↦ [] | some node ↦ sort by_amount callees ];
            callers = elim focal [ none ↦ [] | some node ↦ sort by_amount callers ];
          }

      unfoldable pub cost_attribution : Text → Option (CostAttribution Number)
      unfolding callee_flows caller_flows node_by_id
      cost_attribution id = elim (compute_cost_model n nodes flow_of.edges metric_of) [
        | none ↦ none
        | some model ↦ some (attribution_from id model)
      ]
