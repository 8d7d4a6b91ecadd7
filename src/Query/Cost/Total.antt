-- ===== src/Query/Cost/Total.antt =====
-- The cost model finds a component for every node.
use codespine.Common.{
  ℕ, zero, suc, ◌+◌, ◌<◌, ◌≡◌, refl, ◌∙◌, ap, some, List, [], ◌∷◌, ◌++◌, map, Text, arith, length,
  length-set, get_elem?, set, Option-cases, inl, inr, text_key,
}
use codespine.Common.JsMap.{JsMap}
use codespine.Schema.{StoredNode}
use codespine.Query.Types.{Numbers, CallEdge}
use codespine.Query.Rows.{runtime_value}
use codespine.Query.Components.{Tarjan, strongly_connected_components}
use codespine.Query.Components.Assigned.{component_of-HasComponent}
use codespine.Query.Components.Assigned.Core.{HasComponent, get_elem?_bound}
use codespine.Query.Cost.{
  CostMetric, Adjacency, adjacency_of, update, push_at, resolve_ends, add_link, link_edges,
  index_of_nodes,
}
use codespine.Query.Cost.Model.{
  Groups, repeat, group_nodes, Arrays, arrays_from, arrays_of, metric_key,
}

pub length-repeat {ℓ} : {A : Type ℓ} (k : ℕ) (x : A) → length (repeat k x) ≡ k
unfolding repeat
length-repeat zero x = refl
length-repeat (suc k) x = ap suc (length-repeat k x)

pub length-map {ℓ κ} :
    {A : Type ℓ} {B : Type κ} (f : A → B) (xs : List A) → length (map f xs) ≡ length xs
length-map f [] = refl
length-map f (x ∷ xs) = ap suc (length-map f xs)

pub length-push_at {ℓ} :
    {A : Type ℓ} (xs : List (List A)) (i : ℕ) (x : A) → length (push_at xs i x) ≡ length xs
length-push_at xs i x = elim (Option-cases (get_elem? xs i)) [
  | inl e ↦ rw (e, push_at, update) refl
  | inr (b, e) ↦ rw (e, push_at, update) (length-set xs i (b ++ x ∷ []))
]

module _ {N : Type 0} where
  length-add_link :
      (index_of : JsMap Text ℕ) (edge : CallEdge N) (adj : Adjacency N)
      → length (add_link index_of edge adj).successors ≡ length adj.successors
  unfolding add_link
  length-add_link index_of edge adj = elim (Option-cases (resolve_ends index_of edge)) [
    | inl e ↦ rw (e, add_link) refl
    | inr ((from, to), e) ↦ rw (e, add_link) (length-push_at adj.successors from to)
  ]

  length-link_edges :
      (index_of : JsMap Text ℕ) (adj : Adjacency N) (edges : List (CallEdge N))
      → length (link_edges index_of adj edges).successors ≡ length adj.successors
  unfolding link_edges
  length-link_edges index_of adj [] = refl
  length-link_edges index_of adj (edge ∷ edges) =
      length-link_edges index_of (add_link index_of edge adj) edges
      ∙ length-add_link index_of edge adj

module _ (n : Numbers) where
  open n use {Number}

  group_nodes_total :
      (s : Tarjan) (g : Groups Number) (i : ℕ) (selves : List Number)
      → length g.members ≡ s.component_count
      → ((v : ℕ) → v < i + length selves → HasComponent s.component_count s.component_of v)
      → (groups : Groups Number) × (group_nodes n s g i selves ≡ some groups)
  unfolding group_nodes
  group_nodes_total s g i [] l has = (g, refl)
  group_nodes_total s g i (self ∷ selves) l has =
      let (c, e, b) = has i (omega arith) in
      let (bucket, q) = get_elem?_bound g.members c (omega (arith, b, l)) in
      let g' : Groups Number = record {
        size = update g.size c (λ k. k + 1);
        self = update g.self c (λ x. n.add x self);
        members = set g.members c (bucket ++ i ∷ []);
      } in
      let (groups, r) =
        group_nodes_total s g' (i + 1) selves (length-set g.members c (bucket ++ i ∷ []) ∙ l)
          (λ v h. has v (omega (arith, h))) in
      (groups, rw (e, q, group_nodes) r)

  -- Once the components are found, so are the arrays of the cost model.
  pub arrays_of_total :
      (nodes : List (StoredNode Number)) (edges : List (CallEdge Number)) (metric : CostMetric)
      (s : Tarjan)
      → strongly_connected_components (adjacency_of nodes edges).successors ≡ some s
      → (a : Arrays n) × (arrays_of n
            (map (λ node. runtime_value n node.metadata (metric_key metric)) nodes)
            (adjacency_of nodes edges)
            s
          ≡ some a)
  unfolding arrays_of adjacency_of
  arrays_of_total nodes edges metric s e =
      let adj = adjacency_of nodes edges in
      let selves =
        map (λ (node : StoredNode Number). runtime_value n node.metadata (metric_key metric))
          nodes in
      let empty : Groups Number = record {
        size = repeat s.component_count 0;
        self = repeat s.component_count n.zero;
        members = repeat s.component_count [];
      } in
      let start : Adjacency Number = record {
        successors = map (λ node. []) nodes;
        out_edges = map (λ node. []) nodes;
        in_edges = map (λ node. []) nodes;
      } in
      let size : length adj.successors ≡ length nodes =
        length-link_edges (index_of_nodes [] 0 nodes) start edges
        ∙ length-map {B = List ℕ} (λ node. []) nodes in
      let count =
        length-map (λ (node : StoredNode Number). runtime_value n node.metadata (metric_key metric))
          nodes in
      let (groups, q) =
        group_nodes_total s empty 0 selves (length-repeat s.component_count [])
          (λ v h. component_of-HasComponent adj.successors s e v (omega (arith, h, size, count))) in
      (arrays_from n selves adj s groups, rw (q, arrays_of) refl)
