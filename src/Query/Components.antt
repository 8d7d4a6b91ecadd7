-- ===== src/Query/Components.antt =====
-- `stronglyConnectedComponents` of src/query/graph_query.ts: Tarjan's algorithm with explicit stacks.
-- `none` stands for the -1 of `index` and `componentOf`; `workNode` and `workNext` are one stack of
-- pairs, its top in front, and so is `sccStack`. The `while` loop takes fuel, and `none` as its
-- result says that it ran out.
pub mod Ends
pub mod Sizes
pub mod Assigned
use codespine.Common.{
  ℕ, zero, suc, ◌+◌, Bool, true, false, ◌&&◌, Option, none, some, List, [], ◌∷◌, get_or,
  if◌then◌else◌, ltb, nat_beq, length, get_elem?, set, map, sum_by,
}

-- `successors`
abbrev pub Graph : Type 0
Graph = List (List ℕ)

pub record Tarjan : Type 0 where
  pub index : List (Option ℕ)
  pub lowlink : List ℕ
  pub on_stack : List Bool
  pub component_of : List (Option ℕ)
  pub scc_stack : List ℕ
  pub work : List (ℕ × ℕ)
  pub counter : ℕ
  pub component_count : ℕ

-- A start, and an edge to a node with no index yet, give a node its index and put it on the stacks.
unfoldable pub discover : ℕ → Tarjan → Tarjan
discover v s = record {
  index = set s.index v (some s.counter);
  lowlink = set s.lowlink v s.counter;
  on_stack = set s.on_stack v true;
  component_of = s.component_of;
  scc_stack = v ∷ s.scc_stack;
  work = (v, 0) ∷ s.work;
  counter = s.counter + 1;
  component_count = s.component_count;
}

abbrev pub lowlink_of : Tarjan → ℕ → ℕ
lowlink_of s v = get_or (get_elem? s.lowlink v) 0

-- `index[v]`, where the node has one.
abbrev pub index_of : Tarjan → ℕ → Option ℕ
index_of s v = get_or (get_elem? s.index v) none

-- `index[v] === -1`
unfoldable pub is_undiscovered : Tarjan → ℕ → Bool
is_undiscovered s v = elim (get_elem? s.index v) [
  | none ↦ false
  | some i ↦ elim i [ none ↦ true | some k ↦ false ]
]

-- `lowlink[node] = low` where that is smaller.
unfoldable pub lower : ℕ → ℕ → Tarjan → Tarjan
lower node low s =
    if ltb low (lowlink_of s node) then record s { lowlink = set s.lowlink node low } else s

-- An edge to a node that has an index.
unfoldable pub back_edge : ℕ → ℕ → Tarjan → Tarjan
unfolding lower
back_edge node next s =
    if get_or (get_elem? s.on_stack next) false
    then lower node (get_or (index_of s next) 0) s
    else s

-- The `do … while` that pops a component, over `sccStack`.
unfoldable pub pop_component : ℕ → List ℕ → Tarjan → Tarjan
pop_component node [] s = record s {
  scc_stack = [];
  on_stack = set s.on_stack node false;
  component_of = set s.component_of node (some s.component_count);
}
pop_component node (member ∷ stack) s =
    let s' = record s {
      scc_stack = stack;
      on_stack = set s.on_stack member false;
      component_of = set s.component_of member (some s.component_count);
    } in
    let rest = pop_component node stack s' in if nat_beq member node then s' else rest

-- A root of a component closes it.
unfoldable pub close : ℕ → Tarjan → Tarjan
close node s = elim (nat_beq (lowlink_of s node) (get_or (index_of s node) 0)) [
  | true ↦
      let s' = pop_component node s.scc_stack s in
      record s' { component_count = s'.component_count + 1 }
  | false ↦ s
]

-- The node on top has no edge left: it leaves the work stack, and its parent takes its lowlink.
unfoldable pub finish : ℕ → List (ℕ × ℕ) → Tarjan → Tarjan
finish node rest s = elim rest [
  | [] ↦ record (close node s) { work = [] }
  | (parent, p) ∷ r ↦
      let s' = record (close node s) { work = (parent, p) ∷ r } in
      lower parent (lowlink_of s' node) s'
]

-- The next edge of the node on top.
unfoldable pub follow : ℕ → ℕ → Tarjan → Tarjan
follow node next s = elim (is_undiscovered s next) [
  | true ↦ discover next s
  | false ↦ back_edge node next s
]

-- One round of the `while` loop, for the top `(node, position)`.
unfoldable pub round : Graph → ℕ → ℕ → List (ℕ × ℕ) → Tarjan → Tarjan
round g node position rest s = elim (get_elem? (get_or (get_elem? g node) []) position) [
  | some next ↦ follow node next (record s { work = (node, position + 1) ∷ rest })
  | none ↦ finish node rest s
]

unfoldable pub work_loop : Graph → ℕ → List (ℕ × ℕ) → Tarjan → Option Tarjan
work_loop g zero [] s = some s
work_loop g zero (w ∷ ws) s = none
work_loop g (suc fuel) [] s = some s
work_loop g (suc fuel) ((node, position) ∷ rest) s =
    let s' = round g node position rest s in work_loop g fuel s'.work s'

-- Each round takes an edge or a node off what is left.
abbrev pub work_fuel : Graph → ℕ
work_fuel g = sum_by (λ succ. suc (length succ)) g

-- The `for` over the starts, `n` of them from `start` on.
unfoldable pub start_loop : Graph → ℕ → ℕ → Tarjan → Option Tarjan
unfolding work_loop
start_loop g zero start s = some s
start_loop g (suc n) start s = elim (is_undiscovered s start) [
  | false ↦ start_loop g n (start + 1) s
  | true ↦ elim (work_loop g (work_fuel g) (discover start s).work (discover start s)) [
    | none ↦ none
    | some s' ↦ start_loop g n (start + 1) s'
  ]
]

abbrev pub initial : Graph → Tarjan
initial g = record {
  index = map (λ _. none) g;
  lowlink = map (λ _. 0) g;
  on_stack = map (λ _. false) g;
  component_of = map (λ _. none) g;
  scc_stack = [];
  work = [];
  counter = 0;
  component_count = 0;
}

-- `componentOf` and `componentCount` are fields of the result.
unfoldable pub strongly_connected_components : Graph → Option Tarjan
unfolding start_loop
strongly_connected_components g = start_loop g (length g) 0 (initial g)
