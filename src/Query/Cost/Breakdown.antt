-- ===== src/Query/Cost/Breakdown.antt =====
-- What `costAttribution` promises.
use mathlib.Core.List.{Perm}
use codespine.Common.{
  ◌≡◌, ◌⊎◌, refl, collect, Option, none, some, List, [], Text, All, get_or, Option-cases, inl, inr,
  text_key, subst,
}
use codespine.Common.Sort.{IsSorted, sort, sort-perm, sort-IsSorted, sort-All}
use codespine.Common.JsMap
use codespine.Common.JsMap.{JsMap}
use codespine.Schema.{StoredNode}
use codespine.Query.Types.{Numbers, Collation, CallEdge}
use codespine.Query.Cost.{self_time, static, CostAttribution, CostModel}
use codespine.Query.Cost.Model.{compute_cost_model}
use codespine.Query.Cost.Report.{
  CostOptions, RuntimeManifest, component_in, callee_flows, caller_flows, node_by_id, by_amount,
  to_cost_ref, metric_of, flow_of, attribution_from, cost_attribution,
}
use codespine.Query.Cost.Shares.{
  IsFlowFor, edges_by, compute_cost_model_total, resolve_flow_edges-fallback,
}
use codespine.Query.Cost.Flows.{
  empty_get, by_amount-IsComparator, callee_flows-collect, caller_flows-collect,
  callee_flows-IsOutside, caller_flows-IsOutside, IsKeyedById, node_by_id-IsKeyedById, IsOutside,
  callee_of, caller_of,
}

module _ (n : Numbers) where
  open n use {Number}

  module _ (c : Collation) (nodes : List (StoredNode Number))
      (calls runtime_calls : List (CallEdge Number)) (manifest : Option (RuntimeManifest Number))
      (options : CostOptions) (id : Text) where
    -- What an attribution lists. The callees and the callers are those of the edges that leave and
    -- enter the focal node, and nothing for an id that no node has.
    abbrev pub IsBreakdown : CostModel Number → CostAttribution Number → Type 0
    IsBreakdown model a =
        let by_id = node_by_id n [] nodes in
        let component = component_in n model id in
        let inclusive = get_or (JsMap.get model.inclusive_cost id) n.zero in
        let inbound = get_or (JsMap.get model.external_inbound id) n.zero in
        let outs = get_or (JsMap.get model.out_edges id) [] in
        let ins = get_or (JsMap.get model.in_edges id) [] in
        ((JsMap.get by_id id ≡ none) × (a.node ≡ none) × (a.callees ≡ []) × (a.callers ≡ []))
        ⊎ ((node : StoredNode Number) × (JsMap.get by_id id ≡ some node)
            × (a.node ≡ some (to_cost_ref n model node))
            × Perm a.callees (collect (callee_of n model component by_id inclusive) outs)
            × Perm a.callers (collect (caller_of n model component by_id inclusive inbound) ins)
            × IsSorted (by_amount n c) a.callees
            × IsSorted (by_amount n c) a.callers
            × All (IsOutside n model component) a.callees
            × All (IsOutside n model component) a.callers)

    breakdown :
        (model : CostModel Number)
        → IsBreakdown model
            (attribution_from n c nodes calls runtime_calls manifest options id model)
    breakdown model =
        let by_id = node_by_id n [] nodes in
        let component = component_in n model id in
        let inclusive = get_or (JsMap.get model.inclusive_cost id) n.zero in
        let inbound = get_or (JsMap.get model.external_inbound id) n.zero in
        let outs = get_or (JsMap.get model.out_edges id) [] in
        let ins = get_or (JsMap.get model.in_edges id) [] in
        let keyed : IsKeyedById n by_id =
          node_by_id-IsKeyedById n nodes [] (λ k x e. empty_get k x e) in
        let callees = callee_flows n model by_id component inclusive outs in
        let callers = caller_flows n model by_id component inclusive inbound ins in
        elim (Option-cases (JsMap.get by_id id)) [
          | inl e ↦ rw (e, attribution_from) (inl (refl, refl, refl, refl))
          | inr (node, e) ↦
              rw (e, attribution_from)
                (inr (
                  node,
                  refl,
                  refl,
                  subst (Perm (sort (by_amount n c) callees))
                      (callee_flows-collect n model component by_id inclusive outs)
                      (sort-perm (by_amount n c) callees),
                  subst (Perm (sort (by_amount n c) callers))
                      (caller_flows-collect n model component by_id inclusive inbound ins)
                      (sort-perm (by_amount n c) callers),
                  sort-IsSorted (by_amount n c) (by_amount-IsComparator n c) callees,
                  sort-IsSorted (by_amount n c) (by_amount-IsComparator n c) callers,
                  sort-All (by_amount n c) (IsOutside n model component) callees
                      (callee_flows-IsOutside n model component by_id inclusive keyed outs),
                  sort-All (by_amount n c) (IsOutside n model component) callers
                      (caller_flows-IsOutside n model component by_id inclusive inbound keyed ins),
                ))
        ]

    -- costAttribution always answers, by the requested metric and along the edges that it names, as
    -- costRanking does, from their cost model. For the id of a node it gives the node's costs, and
    -- one callee for each edge that leaves the node to a known node outside its call cycle, and one
    -- caller for each that enters it from such a node: a callee's amount is its inclusive cost, a
    -- caller's the focal one, times the edge's count over the weight that enters the callee's or the
    -- focal node from outside its cycle. Both lists are sorted by amount downwards, then path, then
    -- line. An id that no node has gives no node, no callees and no callers.
    pub cost_attribution-IsBreakdown :
        (model : CostModel Number) × (a : CostAttribution Number) × (cost_attribution n c nodes
            calls runtime_calls manifest options id
          ≡ some a)
        × (compute_cost_model n nodes (edges_by calls runtime_calls a.edges) a.metric ≡ some model)
        × (a.metric ≡ get_or options.by self_time)
        × IsFlowFor runtime_calls (get_or options.edges static) a.edges a.fell_back
        × IsBreakdown model a
    unfolding cost_attribution
    cost_attribution-IsBreakdown =
        let flow = flow_of n c nodes calls runtime_calls manifest options in
        let metric = metric_of n c nodes calls runtime_calls manifest options in
        let (model, e, m) = compute_cost_model_total n nodes flow.edges metric in
        let (chosen, edges) =
          resolve_flow_edges-fallback calls runtime_calls (get_or options.edges static) in
        (
          model,
          attribution_from n c nodes calls runtime_calls manifest options id model,
          rw (e, cost_attribution) refl,
          subst (λ es. compute_cost_model n nodes es metric ≡ some model) edges e,
          refl,
          chosen,
          breakdown model,
        )
