-- ===== src/Query/Cost/Flows.antt =====
-- The callees and the callers that `costAttribution` collects.
use mathlib.Core.Option
use codespine.Common.{
  ℕ, ◌≡◌, refl, sym, ap, ◌∙◌, false, collect, collect-none, collect-some, if◌then◌else◌, Option,
  none, some, List, [], ◌∷◌, Text, arith, All, get_or, Bool-cases, Option-cases, inl, inr, text_key,
  text_eq_iff, subst,
}
use codespine.Common.Sort.{
  IsComparator, or_else-IsComparator, by_number-IsComparator, by_key-IsComparator,
  reverse-IsComparator,
}
use codespine.Common.JsMap
use codespine.Common.JsMap.{JsMap}
use codespine.Schema.{StoredNode}
use codespine.Query.Types.{Numbers, Collation, CallEdge, symbol_of}
use codespine.Query.Cost.{CostFlow, CostModel}
use codespine.Query.Cost.Model.{same_component}
use codespine.Query.Cost.Report.{
  component_in, callee_flows, caller_flows, node_by_id, by_amount, if_positive,
}

pub empty_get : {N : Type 0} (k : Text) (x : StoredNode N) → JsMap.get [] k ≡ some x → x.id ≡ k
unfolding JsMap.get
empty_get k x e = cc

module _ (n : Numbers) where
  open n use {Number}

  pub by_amount-IsComparator : (c : Collation) → IsComparator (by_amount n c)
  by_amount-IsComparator c =
      or_else-IsComparator
        (by_key-IsComparator (λ (f : CostFlow Number). f.amount)
          (reverse-IsComparator n.compare-IsComparator))
        (or_else-IsComparator
          (by_key-IsComparator (λ (f : CostFlow Number). f.symbol.file_path)
            c.locale_compare-IsComparator)
          (by_number-IsComparator (λ (f : CostFlow Number). f.symbol.start_line)))

  -- Every entry stands under its node's id.
  abbrev pub IsKeyedById : JsMap Text (StoredNode Number) → Type 0
  IsKeyedById m = (k : Text) (x : StoredNode Number) → JsMap.get m k ≡ some x → x.id ≡ k

  pub node_by_id-IsKeyedById :
      (nodes : List (StoredNode Number)) (m : JsMap Text (StoredNode Number))
      → IsKeyedById m
      → IsKeyedById (node_by_id n m nodes)
  unfolding node_by_id
  node_by_id-IsKeyedById [] m h = h
  node_by_id-IsKeyedById (node ∷ nodes) m h =
      node_by_id-IsKeyedById nodes (JsMap.set m node.id node)
        (λ k x e. ground (arith, JsMap.get-set m node.id k node, text_eq_iff node.id k, h k x, e))

  module _ (model : CostModel Number) (component : Option ℕ)
      (by_id : JsMap Text (StoredNode Number)) where
    -- What an edge to a callee carries: the callee's inclusive cost, by the edge's part of the weight
    -- that enters the callee's cycle.
    abbrev callee_flow : Number → CallEdge Number → StoredNode Number → CostFlow Number
    callee_flow inclusive edge callee =
        let inbound = get_or (JsMap.get model.external_inbound edge.to_id) n.zero in
        let cost = get_or (JsMap.get model.inclusive_cost edge.to_id) n.zero in
        let amount = if_positive n inbound (n.div (n.mul cost edge.count) inbound) in
        record {
          symbol = symbol_of callee;
          amount = amount;
          share = if_positive n inclusive (n.div amount inclusive);
          call_count = edge.count;
        }

    -- The same for an edge to a known callee outside a component.
    abbrev pub callee_of : Number → CallEdge Number → Option (CostFlow Number)
    callee_of inclusive edge =
        if same_component (component_in n model edge.to_id) component
        then none
        else Option.map (callee_flow inclusive edge) (JsMap.get by_id edge.to_id)

    -- What an edge from a caller carries: the focal cost, by the edge's part of the inbound weight.
    abbrev caller_flow : Number → Number → CallEdge Number → StoredNode Number → CostFlow Number
    caller_flow inclusive inbound edge caller = record {
      symbol = symbol_of caller;
      amount = if_positive n inbound (n.div (n.mul inclusive edge.count) inbound);
      share = if_positive n inbound (n.div edge.count inbound);
      call_count = edge.count;
    }

    abbrev pub caller_of : Number → Number → CallEdge Number → Option (CostFlow Number)
    caller_of inclusive inbound edge =
        if same_component (component_in n model edge.from_id) component
        then none
        else Option.map (caller_flow inclusive inbound edge) (JsMap.get by_id edge.from_id)

    pub callee_flows-collect :
        (inclusive : Number) (edges : List (CallEdge Number))
        → callee_flows n model by_id component inclusive edges ≡ collect (callee_of inclusive) edges
    unfolding callee_flows
    callee_flows-collect inclusive [] = refl
    callee_flows-collect inclusive (edge ∷ edges) =
        let rest = callee_flows-collect inclusive edges in
        elim (Bool-cases (same_component (component_in n model edge.to_id) component)) [
          | inl t ↦ rw t (rest ∙ sym (collect-none (callee_of inclusive) edge edges (rw t refl)))
          | inr f ↦ elim (Option-cases (JsMap.get by_id edge.to_id)) [
            | inl e ↦
                rw (f, e)
                  (rest ∙ sym (collect-none (callee_of inclusive) edge edges (rw (f, e) refl)))
            | inr (callee, e) ↦
                rw (f, e)
                  (ap (◌∷◌ (callee_flow inclusive edge callee)) rest
                    ∙ sym (
                        collect-some (callee_of inclusive) edge edges
                          (callee_flow inclusive edge callee) (rw (f, e) refl)))
          ]
        ]

    pub caller_flows-collect :
        (inclusive inbound : Number) (edges : List (CallEdge Number))
        → caller_flows n model by_id component inclusive inbound edges
          ≡ collect (caller_of inclusive inbound) edges
    unfolding caller_flows
    caller_flows-collect inclusive inbound [] = refl
    caller_flows-collect inclusive inbound (edge ∷ edges) =
        let rest = caller_flows-collect inclusive inbound edges in
        elim (Bool-cases (same_component (component_in n model edge.from_id) component)) [
          | inl t ↦
              rw t (rest ∙ sym (collect-none (caller_of inclusive inbound) edge edges (rw t refl)))
          | inr f ↦ elim (Option-cases (JsMap.get by_id edge.from_id)) [
            | inl e ↦
                rw (f, e)
                  (rest
                    ∙ sym (collect-none (caller_of inclusive inbound) edge edges (rw (f, e) refl)))
            | inr (caller, e) ↦
                rw (f, e)
                  (ap (◌∷◌ (caller_flow inclusive inbound edge caller)) rest
                    ∙ sym (
                        collect-some (caller_of inclusive inbound) edge edges
                          (caller_flow inclusive inbound edge caller) (rw (f, e) refl)))
          ]
        ]

  module _ (model : CostModel Number) (component : Option ℕ) where
    abbrev IsAway : Text → Type 0
    IsAway id = same_component (component_in n model id) component ≡ false

    -- A flow whose other end is outside a component.
    abbrev pub IsOutside : CostFlow Number → Type 0
    IsOutside f = same_component (component_in n model f.symbol.id) component ≡ false

    pub callee_flows-IsOutside :
        (by_id : JsMap Text (StoredNode Number)) (inclusive : Number)
        → IsKeyedById by_id
        → (edges : List (CallEdge Number))
        → All IsOutside (callee_flows n model by_id component inclusive edges)
    unfolding callee_flows symbol_of
    callee_flows-IsOutside by_id inclusive h [] = tt
    callee_flows-IsOutside by_id inclusive h (edge ∷ edges) =
        let rest = callee_flows-IsOutside by_id inclusive h edges in
        elim (Bool-cases (same_component (component_in n model edge.to_id) component)) [
          | inl t ↦ rw t rest
          | inr f ↦ elim (Option-cases (JsMap.get by_id edge.to_id)) [
            | inl e ↦ rw (f, e) rest
            | inr (callee, e) ↦ rw (f, e) (subst IsAway (sym (h edge.to_id callee e)) f, rest)
          ]
        ]

    pub caller_flows-IsOutside :
        (by_id : JsMap Text (StoredNode Number)) (inclusive inbound : Number)
        → IsKeyedById by_id
        → (edges : List (CallEdge Number))
        → All IsOutside (caller_flows n model by_id component inclusive inbound edges)
    unfolding caller_flows symbol_of
    caller_flows-IsOutside by_id inclusive inbound h [] = tt
    caller_flows-IsOutside by_id inclusive inbound h (edge ∷ edges) =
        let rest = caller_flows-IsOutside by_id inclusive inbound h edges in
        elim (Bool-cases (same_component (component_in n model edge.from_id) component)) [
          | inl t ↦ rw t rest
          | inr f ↦ elim (Option-cases (JsMap.get by_id edge.from_id)) [
            | inl e ↦ rw (f, e) rest
            | inr (caller, e) ↦ rw (f, e) (subst IsAway (sym (h edge.from_id caller e)) f, rest)
          ]
        ]
