-- ===== src/Cluster/Detector/Index.antt =====
-- The indices that the ids of the edges are given.
use codespine.Common.{
  Bool, any, if◌then◌else◌, ℕ, ◌≡◌, refl, sym, ap, ◌∙◌, ◌↔◌, ◌++◌, true, none, some, List, [], ◌∷◌,
  Text, inl, inr, Bool-cases, get_elem?, get_elem?-snoc, get_elem?_in_bounds, length, arith,
  text_key, text_eq, text_eq_iff,
}
use codespine.Common.JsMap
use codespine.Cluster.Detector.{WeightedEdge, Indexed, index_node, index_loop, index_nodes}

-- The list of the ids and the map of the indices say the same.
abbrev pub IsIndex : Indexed → Type 0
IsIndex s = (id : Text) (i : ℕ) → (JsMap.get s.index_of id ≡ some i) ↔ (get_elem? s.ids i ≡ some id)

IsIndex-added :
    (s : Indexed) (new : Text)
    → IsIndex s
    → JsMap.get s.index_of new ≡ none
    → IsIndex
        (record { ids = s.ids ++ new ∷ []; index_of = JsMap.set s.index_of new (length s.ids) })
IsIndex-added s new inv h id i =
    let k = length s.ids in
    let get = JsMap.get-set s.index_of new id k in
    let elem = get_elem?-snoc s.ids new i in
    let bound = get_elem?_in_bounds s.ids i id in
    let e = text_eq_iff new id in
    elim (Bool-cases (text_eq new id)) [
      | inl t ↦
          let q = e.0 t in
          let absent : JsMap.get s.index_of id ≡ none = ap (JsMap.get s.index_of) (sym q) ∙ h in
          ground (arith, inv id i, get, elem, bound, t, q, absent)
      | inr f ↦ ground (arith, inv id i, get, elem, bound, e, f)
    ]

index_node-IsIndex : (id : Text) (s : Indexed) → IsIndex s → IsIndex (index_node id s)
unfolding index_node
index_node-IsIndex id s inv = elim (Bool-cases (JsMap.has s.index_of id)) [
  | inl t ↦ rw t inv
  | inr f ↦ rw f (IsIndex-added s id inv (JsMap.get_absent s.index_of id f))
]

index_node-has :
    (new : Text) (s : Indexed) (id : Text)
    → JsMap.has (index_node new s).index_of id
      ≡ (if text_eq new id then true else JsMap.has s.index_of id)
unfolding index_node
index_node-has new s id = elim (Bool-cases (JsMap.has s.index_of new)) [
  | inl t ↦ rw t (elim (Bool-cases (text_eq new id)) [
    | inl q ↦ rw q (ap (JsMap.has s.index_of) (sym ((text_eq_iff new id).0 q)) ∙ t)
    | inr f ↦ rw f refl
  ])
  | inr f ↦ rw f (JsMap.has-set s.index_of new id (length s.ids))
]

module _ {N : Type 0} where
  -- Whether an edge has a node at one of its ends.
  abbrev pub touches : Text → WeightedEdge N → Bool
  touches id edge = if text_eq edge.from id then true else text_eq edge.to id

  index_loop-IsIndex :
      (s : Indexed) (edges : List (WeightedEdge N)) → IsIndex s → IsIndex (index_loop s edges)
  unfolding index_loop
  index_loop-IsIndex s [] inv = inv
  index_loop-IsIndex s (edge ∷ edges) inv =
      index_loop-IsIndex (index_node edge.to (index_node edge.from s)) edges
        (index_node-IsIndex edge.to (index_node edge.from s) (index_node-IsIndex edge.from s inv))

  index_loop-has :
      (s : Indexed) (edges : List (WeightedEdge N)) (id : Text)
      → JsMap.has (index_loop s edges).index_of id
        ≡ (if JsMap.has s.index_of id then true else any (touches id) edges)
  unfolding index_loop
  index_loop-has s [] id = ground arith
  index_loop-has s (edge ∷ edges) id =
      let s1 = index_node edge.from s in
      let s2 = index_node edge.to s1 in
      let h1 = index_node-has edge.from s id in
      let h2 = index_node-has edge.to s1 id in index_loop-has s2 edges id ∙ ground (arith, h1, h2)

  -- The list of ids and the map of indices of indexNodes are inverse to each other, for every list of
  -- edges, and exactly the nodes at the ends of the edges have an index.
  pub index_nodes-IsIndex :
      (edges : List (WeightedEdge N))
      → IsIndex (index_nodes edges)
        × ((id : Text) → JsMap.has (index_nodes edges).index_of id ≡ any (touches id) edges)
  unfolding index_nodes JsMap.get JsMap.has
  index_nodes-IsIndex edges = (
    index_loop-IsIndex (record { ids = []; index_of = [] }) edges (λ id i. ground arith),
    λ id. index_loop-has (record { ids = []; index_of = [] }) edges id,
  )
