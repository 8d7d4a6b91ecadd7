-- ===== src/Query/Cost/Cycles/Members.antt =====
-- What `strongCycles` reports.
use mathlib.Core.List.{Perm}
use codespine.Common.{
  ℕ, suc, ◌<◌, ◌≡◌, refl, ◌∙◌, ap, true, some, List, [], ◌∷◌, map, Text, ltb, filter, get_elem?,
  length, arith, All, Bool-cases, Option-cases, inl, inr,
}
use codespine.Common.Sort.{
  sort, sort-perm, sort-All, sort-IsSorted, IsSorted, by_key-IsComparator, by_number-IsComparator,
  reverse-IsComparator,
}
use codespine.Common.JsMap.{JsMap}
use codespine.Schema.{StoredNode}
use codespine.Query.Types.{SymbolRef, CallEdge}
use codespine.Query.Components.{Graph, Tarjan, strongly_connected_components}
use codespine.Query.Components.Assigned.{component_of-HasComponent}
use codespine.Query.Components.Assigned.Core.{HasComponent, get_elem?_bound}
use codespine.Query.Cost.Total.{length-repeat, length-map, length-push_at}
use codespine.Query.Components.Ends.{strongly_connected_components_ends}
use codespine.Query.Components.Sizes.{component_of-length}
use codespine.Query.Cost.{resolve_ends, index_of_nodes}
use codespine.Query.Cost.Model.{repeat}
use codespine.Query.Cost.Cycles.{add_successor, successors_of, symbols_at, by_size, strong_cycles}
use codespine.Query.Cost.Cycles.Collected.{
  positions, collect_members-Collected, get-repeat, repeat-All,
}

module _ {N : Type 0} where
  length-symbols_at :
      (nodes : List (StoredNode N)) (is : List ℕ)
      → All (λ j. j < length nodes) is
      → length (symbols_at nodes is) ≡ length is
  unfolding symbols_at
  length-symbols_at nodes [] a = refl
  length-symbols_at nodes (i ∷ is) a =
      let (x, e) = get_elem?_bound nodes i a.0 in
      rw (e, symbols_at) (ap suc (length-symbols_at nodes is a.1))

  large :
      (nodes : List (StoredNode N)) (groups : List (List ℕ))
      → All (All (λ j. j < length nodes)) groups
      → All
          (λ c. 1 < length c)
          (map (symbols_at nodes) (filter (λ group. ltb 1 (length group)) groups))
  large nodes [] a = tt
  large nodes (group ∷ groups) a = elim (Bool-cases (ltb 1 (length group))) [
    | inl t ↦
        rw t
          (omega (arith, length-symbols_at nodes group a.0, more group t), large nodes groups a.1)
    | inr f ↦ rw f (large nodes groups a.1)
  ]
    where
      more : (g : List ℕ) → ltb 1 (length g) ≡ true → 1 < length g
      more g t = ground arith

  length-add_successor :
      (index_of : JsMap Text ℕ) (edge : CallEdge N) (g : Graph)
      → length (add_successor index_of edge g) ≡ length g
  unfolding add_successor
  length-add_successor index_of edge g = elim (Option-cases (resolve_ends index_of edge)) [
    | inl e ↦ rw (e, add_successor) refl
    | inr ((from, to), e) ↦ rw (e, add_successor) (length-push_at g from to)
  ]

  length-successors_of :
      (index_of : JsMap Text ℕ) (g : Graph) (edges : List (CallEdge N))
      → length (successors_of index_of g edges) ≡ length g
  unfolding successors_of
  length-successors_of index_of g [] = refl
  length-successors_of index_of g (edge ∷ edges) =
      length-successors_of index_of (add_successor index_of edge g) edges
      ∙ length-add_successor index_of edge g

  -- The successors that strongCycles gives to Tarjan's algorithm.
  abbrev pub cycle_graph : List (StoredNode N) → List (CallEdge N) → Graph
  cycle_graph nodes edges = successors_of (index_of_nodes [] 0 nodes) (map (λ node. []) nodes) edges

  -- The groups of a run of Tarjan's algorithm over some nodes: every node is in one of its
  -- components, and group `c` lists the indices of the nodes in component `c`.
  abbrev pub IsGrouping : List (StoredNode N) → Tarjan → List (List ℕ) → Type 0
  IsGrouping nodes s groups =
      ((v : ℕ) → v < length nodes → HasComponent s.component_count s.component_of v)
      × (length groups ≡ s.component_count)
      × ((c : ℕ) → c < s.component_count → get_elem? groups c ≡ some (positions c 0 s.component_of))

  -- strongCycles always answers. Tarjan's algorithm puts every node into one of the components that
  -- it counts; the reported cycles are exactly the components of more than one node, each as the
  -- symbols of all the nodes that have its number, and the larger cycles come first.
  pub strong_cycles-IsSorted :
      (nodes : List (StoredNode N)) (edges : List (CallEdge N))
      → (cycles : List (List (SymbolRef N))) × (s : Tarjan) × (groups : List (List ℕ))
        × (strong_cycles nodes edges ≡ some cycles)
        × (strongly_connected_components (cycle_graph nodes edges) ≡ some s)
        × IsGrouping nodes s groups
        × Perm cycles (map (symbols_at nodes) (filter (λ group. ltb 1 (length group)) groups))
        × All (λ c. 1 < length c) cycles
        × IsSorted by_size cycles
  unfolding strong_cycles
  strong_cycles-IsSorted nodes edges =
      let g = cycle_graph nodes edges in
      let (s, (e, h)) = strongly_connected_components_ends g in
      let size = component_of-length g s e in
      let count : length g ≡ length nodes =
        length-successors_of (index_of_nodes [] 0 nodes) (map (λ node. []) nodes) edges
        ∙ length-map {B = List ℕ} (λ node. []) nodes in
      let (members, r, k) =
        collect_members-Collected (length nodes) s.component_count (repeat s.component_count []) 0
          s.component_of (omega (arith, size, count)) (length-repeat s.component_count [])
          (λ v u. component_of-HasComponent g s e v (omega (arith, u, size)))
          (repeat-All (λ j. j < length nodes) s.component_count) in
      let groups = map (symbols_at nodes) (filter (λ group. ltb 1 (length group)) members) in
      (
        sort by_size groups,
        s,
        members,
        rw (e, r, strong_cycles) refl,
        e,
        (
          (λ v u. component_of-HasComponent g s e v (omega (arith, u, count))),
          k.size ∙ length-repeat s.component_count [],
          λ c u. k.grown c [] (get-repeat s.component_count c u),
        ),
        sort-perm by_size groups,
        sort-All by_size (λ c. 1 < length c) groups (large nodes members k.all),
        sort-IsSorted by_size
            (by_key-IsComparator length (reverse-IsComparator (by_number-IsComparator (λ k. k))))
            groups,
      )
