-- ===== src/Query/Radius.antt =====
-- `blastRadiusSizes`, `reachableCount` and `sumInbound` of src/query/graph_query.ts. The `visited`
-- set is the list of its ids in insertion order, the stack a list with its top in front. The loop
-- takes fuel, and `none` says that it ran out.
pub mod Reach
pub mod Correct
use codespine.Common.{
  ℕ, zero, suc, ◌+◌, Bool, true, false, Option, none, some, List, [], ◌∷◌, ◌++◌, Text, get_or,
  if◌then◌else◌, includes, text_key, filter, not, text_eq, length, sum_by,
}
use codespine.Common.JsMap
use codespine.Common.JsMap.{JsMap, values}
use codespine.Query.Types.{CallEdge}
use codespine.Schema.{StoredNode}

-- The callers of each id.
abbrev pub Callers : Type 0
Callers = JsMap Text (List Text)

abbrev pub callers_of : Callers → Text → List Text
callers_of callers id = get_or (JsMap.get callers id) []

-- The loop that fills the buckets.
unfoldable pub index_callers : {N : Type 0} → Callers → List (CallEdge N) → Callers
index_callers m [] = m
index_callers m (edge ∷ edges) =
    index_callers (JsMap.set m edge.to_id (callers_of m edge.to_id ++ edge.from_id ∷ [])) edges

-- The `for` over the callers of a visited id: those not yet visited go on the stack.
unfoldable pub push_unvisited : List Text → List Text → List Text → List Text
push_unvisited visited [] stack = stack
push_unvisited visited (next ∷ rest) stack =
    push_unvisited visited rest (if includes visited next then stack else next ∷ stack)

-- The `while` loop.
unfoldable pub walk : Callers → ℕ → List Text → List Text → Option (List Text)
unfolding push_unvisited
walk callers zero visited [] = some visited
walk callers zero visited (id ∷ stack) = none
walk callers (suc fuel) visited [] = some visited
walk callers (suc fuel) visited (id ∷ stack) = elim (includes visited id) [
  | true ↦ walk callers fuel visited stack
  | false ↦
      walk callers fuel (visited ++ id ∷ [])
        (push_unvisited (visited ++ id ∷ []) (callers_of callers id) stack)
]

-- Every id is pushed for a caller of `start`, or of an id that is then visited for good.
abbrev pub walk_fuel : Callers → ℕ
walk_fuel callers = sum_by (λ e. length e.1) callers + sum_by (λ e. length e.1) callers

-- `visited` at the end of the loop; the whole of the first bucket is pushed.
unfoldable pub ancestors : Text → Callers → Option (List Text)
unfolding walk
ancestors start callers =
    walk callers (walk_fuel callers) [] (push_unvisited [] (callers_of callers start) [])

-- `visited.delete(start)`, then its size.
unfoldable pub reachable_count : Text → Callers → Option ℕ
unfolding ancestors
reachable_count start callers = elim (ancestors start callers) [
  | none ↦ none
  | some visited ↦ some (length (filter (λ id. not (text_eq id start)) visited))
]

-- The loop over the nodes.
unfoldable pub sizes_loop :
    {N : Type 0} → JsMap Text ℕ → List (StoredNode N) → Callers → JsMap Text ℕ
unfolding reachable_count
sizes_loop m [] callers = m
sizes_loop m (node ∷ nodes) callers =
    sizes_loop (JsMap.set m node.id (get_or (reachable_count node.id callers) 0)) nodes callers

unfoldable pub blast_radius_sizes :
    {N : Type 0} → List (StoredNode N) → List (CallEdge N) → JsMap Text ℕ
unfolding index_callers sizes_loop
blast_radius_sizes nodes edges = sizes_loop [] nodes (index_callers [] edges)

module _ {N : Type 0} (add : N → N → N) (zero_number : N) where
  -- `totals.set(to, (totals.get(to) ?? 0) + weight(edge))`, over the edges.
  unfoldable pub sum_inbound : (CallEdge N → N) → JsMap Text N → List (CallEdge N) → JsMap Text N
  sum_inbound weight m [] = m
  sum_inbound weight m (edge ∷ edges) =
      sum_inbound weight
        (JsMap.set m edge.to_id (add (get_or (JsMap.get m edge.to_id) zero_number) (weight edge)))
        edges
