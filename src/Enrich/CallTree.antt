-- ===== src/Enrich/CallTree.antt =====
-- `callEdges` and `subtreeSamples` of src/enrich/cpu_profile.ts: the runtime call graph of a profile,
-- by an iterative post-order. The stack is a list with its top in front, `onStack` the list of its
-- ids. The `while` loop takes fuel, and `none` says that it ran out.
pub mod Ends
use codespine.Common.{
  ℕ, zero, suc, ◌+◌, Bool, true, false, not, ◌||◌, Option, none, some, List, [], ◌∷◌, ◌++◌, map,
  get_or, if◌then◌else◌, nat_beq, nat_key, filter, any, includes, length, sum_by, ltb,
}
use codespine.Common.Int.{increment}
use codespine.Common.JsMap
use codespine.Common.JsMap.{JsMap}
use codespine.Enrich.Profile.{CallFrame, ProfileNode, CpuProfileData, bump, tally_hits}
use codespine.Enrich.Join.{RuntimeCallEdge}
use codespine.Enrich.Join.Resolve.{FrameRef}

unfoldable pub count_ticks : JsMap ℕ ℕ → List ℕ → JsMap ℕ ℕ
unfolding bump
count_ticks m [] = m
count_ticks m (id ∷ ids) = count_ticks (bump m id 1) ids

unfoldable pub samples_by_node : CpuProfileData → JsMap ℕ ℕ
unfolding count_ticks tally_hits
samples_by_node profile = elim (get_or profile.samples []) [
  | [] ↦ tally_hits [] profile.nodes
  | id ∷ ids ↦ count_ticks [] (id ∷ ids)
]

-- `new Map(profile.nodes.map((node) => [node.id, node]))`
unfoldable pub profile_node_by_id : JsMap ℕ ProfileNode → List ProfileNode → JsMap ℕ ProfileNode
profile_node_by_id m [] = m
profile_node_by_id m (node ∷ nodes) = profile_node_by_id (JsMap.set m node.id node) nodes

pub record Walk : Type 0 where
  pub subtree : JsMap ℕ ℕ
  pub on_stack : List ℕ
  pub stack : List ℕ

-- Visited already, or waiting on the stack.
abbrev pub is_settled : Walk → ℕ → Bool
is_settled s c = JsMap.has s.subtree c || includes s.on_stack c

unfoldable pub push_pending : List ℕ → Walk → Walk
push_pending [] s = s
push_pending (child ∷ rest) s =
    push_pending rest (record s { on_stack = child ∷ s.on_stack; stack = child ∷ s.stack })

-- The sum over the children, from `sum` on.
unfoldable pub add_children : JsMap ℕ ℕ → ℕ → List ℕ → ℕ
add_children subtree sum [] = sum
add_children subtree sum (child ∷ rest) =
    add_children subtree (sum + get_or (JsMap.get subtree child) 0) rest

module _ (self : JsMap ℕ ℕ) (by_id : JsMap ℕ ProfileNode) where
  -- The children of a node that the profile has.
  abbrev pub known_children : ProfileNode → List ℕ
  known_children node = filter (λ c. JsMap.has by_id c) (get_or node.children [])

  abbrev pub children_of : ℕ → List ℕ
  children_of id = elim (JsMap.get by_id id) [ none ↦ [] | some node ↦ known_children node ]

  -- The node on top is done: it leaves the stack.
  unfoldable pub finish_node : ℕ → List ℕ → Walk → Walk
  unfolding add_children
  finish_node id rest s = record {
    subtree =
        JsMap.set s.subtree id
          (add_children s.subtree (get_or (JsMap.get self id) 0) (children_of id));
    on_stack = filter (λ c. not (nat_beq c id)) s.on_stack;
    stack = rest;
  }

  abbrev pub pending_of : ℕ → Walk → List ℕ
  pending_of id s = filter (λ c. not (is_settled s c)) (children_of id)

  -- One round of the `while` loop, for the top `id`.
  unfoldable pub visit : ℕ → List ℕ → Walk → Walk
  visit id rest s = elim (pending_of id s) [
    | [] ↦ finish_node id rest s
    | c ∷ cs ↦ push_pending (c ∷ cs) s
  ]

  unfoldable pub walk_tree : ℕ → List ℕ → Walk → Option Walk
  walk_tree zero [] s = some s
  walk_tree zero (id ∷ rest) s = none
  walk_tree (suc fuel) [] s = some s
  walk_tree (suc fuel) (id ∷ rest) s = let s' = visit id rest s in walk_tree fuel s'.stack s'

  -- A node expands once, and then its children and itself leave the stack.
  abbrev pub tree_fuel : ℕ
  tree_fuel = suc (sum_by (λ e. suc (length (known_children e.1))) by_id)

  -- The `for` over the roots.
  unfoldable pub walk_roots : JsMap ℕ ℕ → List ProfileNode → Option (JsMap ℕ ℕ)
  unfolding walk_tree
  walk_roots subtree [] = some subtree
  walk_roots subtree (root ∷ roots) = elim (JsMap.has subtree root.id) [
    | true ↦ walk_roots subtree roots
    | false ↦
        elim (walk_tree tree_fuel (root.id ∷ [])
          (record { subtree = subtree; on_stack = root.id ∷ []; stack = root.id ∷ [] })) [
            | none ↦ none
            | some s ↦ walk_roots s.subtree roots
          ]
  ]

unfoldable pub subtree_samples : CpuProfileData → Option (JsMap ℕ ℕ)
unfolding walk_roots samples_by_node profile_node_by_id
subtree_samples profile =
    walk_roots (samples_by_node profile) (profile_node_by_id [] profile.nodes) [] profile.nodes

unfoldable pub call_frame_ref : CallFrame → FrameRef
call_frame_ref frame = record {
  function_name = frame.function_name;
  url = frame.url;
  line = increment frame.line_number;
}

-- The calls of one parent.
unfoldable pub edges_from :
    JsMap ℕ ℕ → JsMap ℕ ProfileNode → ProfileNode → List ℕ → List RuntimeCallEdge
unfolding call_frame_ref
edges_from subtree by_id node [] = []
edges_from subtree by_id node (id ∷ ids) =
    let rest = edges_from subtree by_id node ids in
    elim (JsMap.get by_id id) [
      | none ↦ rest
      | some child ↦
          record {
            caller = call_frame_ref node.call_frame;
            callee = call_frame_ref child.call_frame;
            samples = get_or (JsMap.get subtree id) 0;
          }
          ∷ rest
    ]

unfoldable pub edges_of_nodes :
    JsMap ℕ ℕ → JsMap ℕ ProfileNode → List ProfileNode → List RuntimeCallEdge
unfolding edges_from
edges_of_nodes subtree by_id [] = []
edges_of_nodes subtree by_id (node ∷ nodes) =
    edges_from subtree by_id node (get_or node.children []) ++ edges_of_nodes subtree by_id nodes

unfoldable pub call_edges : CpuProfileData → Option (List RuntimeCallEdge)
unfolding subtree_samples edges_of_nodes
call_edges profile = elim (subtree_samples profile) [
  | none ↦ none
  | some subtree ↦ some (edges_of_nodes subtree (profile_node_by_id [] profile.nodes) profile.nodes)
]
