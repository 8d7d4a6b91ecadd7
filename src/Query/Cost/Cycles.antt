-- ===== src/Query/Cost/Cycles.antt =====
-- `strongCycles` of src/query/graph_query.ts: the call cycles, largest first.
mod Collected
pub mod Members
use Prim.Native.Nat.{compare, Ordering}
use codespine.Common.{
  ℕ, ◌+◌, ◌≡◌, refl, Option, none, some, List, [], ◌∷◌, map, Text, ltb, filter, get_elem?, set,
  ◌++◌, length,
}
use codespine.Common.Sort.{
  sort, sort-IsSorted, IsSorted, by_key-IsComparator, by_number-IsComparator, reverse-IsComparator,
}
use codespine.Common.JsMap.{JsMap}
use codespine.Schema.{StoredNode}
use codespine.Query.Types.{SymbolRef, symbol_of, CallEdge}
use codespine.Query.Components.{Graph, strongly_connected_components}
use codespine.Query.Components.Ends.{strongly_connected_components_ends}
use codespine.Query.Cost.{push_at, resolve_ends, index_of_nodes}
use codespine.Query.Cost.Model.{repeat}

-- `componentOf.forEach((component, index) => members[component].push(index))`, from `i` on;
-- `none` where that throws, since there is no such component.
unfoldable pub collect_members : List (List ℕ) → ℕ → List (Option ℕ) → Option (List (List ℕ))
collect_members members i [] = some members
collect_members members i (none ∷ cs) = none
collect_members members i (some c ∷ cs) = elim (get_elem? members c) [
  | none ↦ none
  | some bucket ↦ collect_members (set members c (bucket ++ i ∷ [])) (i + 1) cs
]

module _ {N : Type 0} where
  unfoldable pub add_successor : JsMap Text ℕ → CallEdge N → Graph → Graph
  unfolding resolve_ends
  add_successor index_of edge g = elim (resolve_ends index_of edge) [
    | none ↦ g
    | some (from, to) ↦ push_at g from to
  ]

  unfoldable pub successors_of : JsMap Text ℕ → Graph → List (CallEdge N) → Graph
  unfolding add_successor
  successors_of index_of g [] = g
  successors_of index_of g (edge ∷ edges) =
      successors_of index_of (add_successor index_of edge g) edges

  -- The nodes at some indices.
  unfoldable pub symbols_at : List (StoredNode N) → List ℕ → List (SymbolRef N)
  symbols_at nodes [] = []
  symbols_at nodes (i ∷ is) =
      let rest = symbols_at nodes is in
      elim (get_elem? nodes i) [ none ↦ rest | some node ↦ symbol_of node ∷ rest ]

  -- The larger cycle first.
  abbrev pub by_size : List (SymbolRef N) → List (SymbolRef N) → Ordering
  by_size a b = compare (length b) (length a)

  unfoldable pub strong_cycles :
      List (StoredNode N) → List (CallEdge N) → Option (List (List (SymbolRef N)))
  unfolding successors_of collect_members symbols_at
  strong_cycles nodes edges =
      let successors = successors_of (index_of_nodes [] 0 nodes) (map (λ node. []) nodes) edges in
      elim (strongly_connected_components successors) [
        | none ↦ none
        | some s ↦ elim (collect_members (repeat s.component_count []) 0 s.component_of) [
          | none ↦ none
          | some members ↦ some (
              sort by_size
                (map (symbols_at nodes) (filter (λ group. ltb 1 (length group)) members)))
        ]
      ]
