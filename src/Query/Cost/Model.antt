-- ===== src/Query/Cost/Model.antt =====
-- `computeCostModel` of src/query/graph_query.ts, stage by stage.
use codespine.Common.{
  ℕ, zero, suc, ◌+◌, Bool, true, false, Option, none, some, List, [], ◌∷◌, ◌++◌, map, Text, codes,
  get_or, if◌then◌else◌, nat_beq, get_elem?, set, text_key,
}
use codespine.Common.JsMap
use codespine.Common.JsMap.{JsMap}
use codespine.Schema.{StoredNode}
use codespine.Query.Types.{Numbers, CallEdge, greater}
use codespine.Query.Rows.{has_runtime, runtime_value}
use codespine.Query.Components.{Tarjan, strongly_connected_components}
use codespine.Query.Cost.{
  CostMetric, self_time, samples, CostModel, Link, Adjacency, adjacency_of, update,
}

-- `componentOf[i]`
abbrev pub component_at : Tarjan → ℕ → Option ℕ
component_at s i = get_or (get_elem? s.component_of i) none

-- `xs[comp]`, and the default that its reader gives where there is no such component.
abbrev pub of_component {ℓ} : {A : Type ℓ} → List A → Option ℕ → A → A
of_component xs none default = default
of_component xs (some comp) default = get_or (get_elem? xs comp) default

-- `componentOf[i] === componentOf[j]`
unfoldable pub same_component : Option ℕ → Option ℕ → Bool
same_component none none = true
same_component none (some j) = false
same_component (some i) none = false
same_component (some i) (some j) = nat_beq i j

-- The key of `metadata.runtime` that a metric reads.
unfoldable pub metric_key : CostMetric → Text
metric_key self_time = codes "selfMs"
metric_key samples = codes "samples"

-- `componentSize`, `selfByComponent` and `members`
pub record Groups (N : Type 0) : Type 0 where
  pub size : List ℕ
  pub self : List N
  pub members : List (List ℕ)

unfoldable pub repeat {ℓ} : {A : Type ℓ} → ℕ → A → List A
repeat zero x = []
repeat (suc k) x = x ∷ repeat k x

module _ (n : Numbers) where
  open n use {Number, add, mul, div}

  -- The components with what they hold, from node `i` on, whose self costs are given; `none` where
  -- `members[comp].push(i)` throws, since there is no such component.
  unfoldable pub group_nodes : Tarjan → Groups Number → ℕ → List Number → Option (Groups Number)
  group_nodes s g i [] = some g
  group_nodes s g i (self ∷ selves) = elim (component_at s i) [
    | none ↦ none
    | some comp ↦ elim (get_elem? g.members comp) [
      | none ↦ none
      | some bucket ↦
          group_nodes s
            (record {
              size = update g.size comp (λ k. k + 1);
              self = update g.self comp (λ x. add x self);
              members = set g.members comp (bucket ++ i ∷ []);
            })
            (i + 1) selves
    ]
  ]

  -- The weight that enters node `to` from outside its component.
  unfoldable pub inbound_weight : Tarjan → ℕ → Number → List (Link Number) → Number
  unfolding same_component
  inbound_weight s to total [] = total
  inbound_weight s to total (edge ∷ edges) =
      inbound_weight s to
        (if same_component (component_at s edge.node) (component_at s to)
          then total
          else add total edge.count)
        edges

  -- `externalInbound`, from node `to` on.
  unfoldable pub external_inbounds : Tarjan → ℕ → List (List (Link Number)) → List Number
  unfolding inbound_weight
  external_inbounds s to [] = []
  external_inbounds s to (edges ∷ rest) =
      inbound_weight s to n.zero edges ∷ external_inbounds s (to + 1) rest

  module _ (s : Tarjan) (external : List Number) (out_edges : List (List (Link Number))) where
    -- What the edges of a member of `comp` add, `done` being `inclusiveByComponent`.
    unfoldable pub add_flows : ℕ → List Number → Number → List (Link Number) → Number
    unfolding same_component
    add_flows comp done inclusive [] = inclusive
    add_flows comp done inclusive (edge ∷ edges) =
        let target = component_at s edge.node in
        let inbound = get_or (get_elem? external edge.node) n.zero in
        let flowed = div (mul (of_component done target n.zero) edge.count) inbound in
        add_flows comp done
          (if same_component target (some comp)
            then inclusive
            else if greater n.compare inbound n.zero
            then add inclusive flowed
            else inclusive)
          edges

    unfoldable pub add_members : ℕ → List Number → Number → List ℕ → Number
    unfolding add_flows
    add_members comp done inclusive [] = inclusive
    add_members comp done inclusive (member ∷ members) =
        add_members comp done
          (add_flows comp done inclusive (get_or (get_elem? out_edges member) [])) members

    -- The components from `comp` on, `k` of them, in the order of their numbers.
    unfoldable pub propagate : Groups Number → ℕ → ℕ → List Number → List Number
    unfolding add_members
    propagate g zero comp done = done
    propagate g (suc k) comp done =
        let inclusive =
          add_members comp done (get_or (get_elem? g.self comp) n.zero)
            (get_or (get_elem? g.members comp) []) in
        propagate g k (comp + 1) (set done comp inclusive)

  -- The id of a node by its index.
  abbrev pub id_at : List (StoredNode Number) → ℕ → Text
  id_at nodes i = elim (get_elem? nodes i) [ none ↦ [] | some node ↦ node.id ]

  abbrev pub empty_model : CostModel Number
  empty_model = record {
    total_self = n.zero;
    measured_nodes = 0;
    self_cost = [];
    inclusive_cost = [];
    component_of = [];
    cycle_size = [];
    external_inbound = [];
    out_edges = [];
    in_edges = [];
  }

  -- The arrays that the last loop reads.
  pub record Arrays : Type 0 where
    pub self : List Number
    pub tarjan : Tarjan
    pub size : List ℕ
    pub external : List Number
    pub inclusive : List Number
    pub adjacency : Adjacency Number

  module _ (all : List (StoredNode Number)) (a : Arrays) where
    -- Node `i` enters the maps of the model.
    unfoldable pub write_node : ℕ → StoredNode Number → CostModel Number → CostModel Number
    write_node i node model =
        let comp = component_at a.tarjan i in
        let self = get_or (get_elem? a.self i) n.zero in
        record {
          total_self = add model.total_self self;
          measured_nodes =
              if has_runtime n node.metadata
              then model.measured_nodes + 1
              else model.measured_nodes;
          self_cost = JsMap.set model.self_cost node.id self;
          inclusive_cost =
              JsMap.set model.inclusive_cost node.id (of_component a.inclusive comp n.zero);
          component_of = JsMap.set model.component_of node.id comp;
          cycle_size = JsMap.set model.cycle_size node.id (of_component a.size comp 1);
          external_inbound =
              JsMap.set model.external_inbound node.id (get_or (get_elem? a.external i) n.zero);
          out_edges = JsMap.set model.out_edges node.id (
              map (λ e. record { from_id = node.id; to_id = id_at all e.node; count = e.count })
                (get_or (get_elem? a.adjacency.out_edges i) []));
          in_edges = JsMap.set model.in_edges node.id (
              map (λ e. record { from_id = id_at all e.node; to_id = node.id; count = e.count })
                (get_or (get_elem? a.adjacency.in_edges i) []));
        }

    unfoldable pub write_nodes : ℕ → List (StoredNode Number) → CostModel Number → CostModel Number
    write_nodes i [] model = model
    write_nodes i (node ∷ nodes) model = write_nodes (i + 1) nodes (write_node i node model)

  -- The arrays, once the components and what they hold are known.
  abbrev pub arrays_from : List Number → Adjacency Number → Tarjan → Groups Number → Arrays
  arrays_from self adj s groups =
      let external = external_inbounds s 0 adj.in_edges in
      record {
        self = self;
        tarjan = s;
        size = groups.size;
        external = external;
        inclusive =
            propagate s external adj.out_edges groups s.component_count 0
              (repeat s.component_count n.zero);
        adjacency = adj;
      }

  unfoldable pub arrays_of : List Number → Adjacency Number → Tarjan → Option Arrays
  unfolding group_nodes external_inbounds propagate repeat
  arrays_of self adj s =
      let k = s.component_count in
      let empty : Groups Number = record {
        size = repeat k 0;
        self = repeat k n.zero;
        members = repeat k [];
      } in
      elim (group_nodes s empty 0 self) [
        | none ↦ none
        | some groups ↦ some (arrays_from self adj s groups)
      ]

  -- `none` where a loop is out of fuel or a component is missing.
  unfoldable pub compute_cost_model :
      List (StoredNode Number) → List (CallEdge Number) → CostMetric → Option (CostModel Number)
  unfolding write_nodes arrays_of metric_key
  compute_cost_model nodes edges metric =
      let adj = adjacency_of nodes edges in
      let self = map (λ node. runtime_value n node.metadata (metric_key metric)) nodes in
      elim (strongly_connected_components adj.successors) [
        | none ↦ none
        | some s ↦ elim (arrays_of self adj s) [
          | none ↦ none
          | some arrays ↦ some (write_nodes nodes arrays 0 nodes empty_model)
        ]
      ]
