-- ===== src/Store/Load.antt =====
-- What `load` writes and counts.
use codespine.Common.{
  ℕ, ◌+◌, ◌≡◌, refl, ◌∙◌, ap, subst, true, false, ◌&&◌, List, [], ◌∷◌, map, Text, if◌then◌else◌,
  arith, Bool-cases, inl, inr, includes, text_key, text_eq, text_eq_iff, filter, length,
}
use codespine.Schema.{GraphNode, GraphEdge}
use codespine.Store.{Database, load, load_nodes, load_edges, write_edges}

module _ {N : Type 0} (db : Database N) where
  abbrev pub ids_of : List (GraphNode N) → List Text
  ids_of nodes = map (λ node. node.id) nodes

  -- The edges with both ends among some ids.
  abbrev pub joined_by : List Text → List (GraphEdge N) → List (GraphEdge N)
  joined_by ids edges = filter (λ e. includes ids e.from && includes ids e.to) edges

  grow :
      (ids : List Text) (id : Text) (rest : List Text) (a : Text)
      → (if includes (if includes ids id then ids else id ∷ ids) a then true else includes rest a)
        ≡ (if includes ids a then true else if text_eq id a then true else includes rest a)
  unfolding includes
  grow ids id rest a = elim (Bool-cases (text_eq id a)) [
    | inl t ↦
        subst
          (λ b.
            (if includes (if includes ids id then ids else id ∷ ids) b
              then true
              else includes rest b)
            ≡ (if includes ids b then true else if text_eq id b then true else includes rest b))
          ((text_eq_iff id a).0 t) (ground (arith, (text_eq_iff id id).1 refl))
    | inr f ↦ ground (arith, f)
  ]

  load_nodes-includes :
      (ids : List Text) (nodes : List (GraphNode N)) (s : db.State) (a : Text)
      → includes (load_nodes db ids nodes s).0 a
        ≡ (if includes ids a then true else includes (ids_of nodes) a)
  unfolding load_nodes includes
  load_nodes-includes ids [] s a = ground arith
  load_nodes-includes ids (node ∷ nodes) s a =
      let ids' = if includes ids node.id then ids else node.id ∷ ids in
      load_nodes-includes ids' nodes (db.merge_node node s) a ∙ grow ids node.id (ids_of nodes) a

  module _ (ids : List Text) (k : ℕ) (e : GraphEdge N) (es : List (GraphEdge N))
      (s : db.State) where
    load_edges_kept :
        (includes ids e.from && includes ids e.to) ≡ true
        → load_edges db ids k (e ∷ es) s ≡ load_edges db ids (k + 1) es (db.merge_edge e s)
    unfolding load_edges
    load_edges_kept t = rw (t, load_edges) refl

    load_edges_skipped :
        (includes ids e.from && includes ids e.to) ≡ false
        → load_edges db ids k (e ∷ es) s ≡ load_edges db ids k es s
    unfolding load_edges
    load_edges_skipped f = rw (f, load_edges) refl

  load_edges-joined :
      (ids : List Text) (k : ℕ) (edges : List (GraphEdge N)) (s : db.State)
      → ((load_edges db ids k edges s).0 ≡ k + length (joined_by ids edges))
        × ((load_edges db ids k edges s).1 ≡ write_edges db (joined_by ids edges) s)
  unfolding load_edges write_edges
  load_edges-joined ids k [] s = (omega arith, refl)
  load_edges-joined ids k (e ∷ es) s =
      elim (Bool-cases (includes ids e.from && includes ids e.to)) [
        | inl t ↦
            let h = load_edges-joined ids (k + 1) es (db.merge_edge e s) in
            let q = load_edges_kept ids k e es s t in
            rw t (
              ap (λ (r : ℕ × db.State). r.0) q ∙ h.0 ∙ omega arith,
              ap (λ (r : ℕ × db.State). r.1) q ∙ h.1,
            )
        | inr f ↦
            let h = load_edges-joined ids k es s in
            let q = load_edges_skipped ids k e es s f in
            rw f (ap (λ (r : ℕ × db.State). r.0) q ∙ h.0, ap (λ (r : ℕ × db.State). r.1) q ∙ h.1)
      ]

  joined_by-ext :
      (ids ids' : List Text)
      → ((a : Text) → includes ids a ≡ includes ids' a)
      → (edges : List (GraphEdge N)) → joined_by ids edges ≡ joined_by ids' edges
  joined_by-ext ids ids' h [] = refl
  joined_by-ext ids ids' h (e ∷ es) = rw (h e.from, h e.to, joined_by-ext ids ids' h es) refl

  -- load writes and counts exactly the edges with both ends among the ids of the nodes that it is
  -- given, in their order, after the nodes: a dangling edge is skipped.
  pub load-joined :
      (nodes : List (GraphNode N)) (edges : List (GraphEdge N)) (s : db.State)
      → ((load db nodes edges s).0
          ≡ write_edges db (joined_by (ids_of nodes) edges) (load_nodes db [] nodes s).1)
        × ((load db nodes edges s).1.1 ≡ length (joined_by (ids_of nodes) edges))
  unfolding load
  load-joined nodes edges s =
      let loaded = load_nodes db [] nodes s in
      let h = load_edges-joined loaded.0 0 edges loaded.1 in
      let e =
        joined_by-ext loaded.0 (ids_of nodes)
          (λ a. unfold includes in load_nodes-includes [] nodes s a) edges in
      (
        h.1 ∙ ap (λ (k : List (GraphEdge N)). write_edges db k loaded.1) e,
        h.0 ∙ omega (arith, ap (λ (k : List (GraphEdge N)). length k) e),
      )
