-- ===== src/Store.antt =====
-- src/store/kuzu_store.ts: the operations of `KuzuStore` on the graph. What Kùzu does for their
-- statements is the record `Database`, with what it documents as laws: a `SET` on a matched node
-- writes its column, `MERGE` and `DELETE` on edges and the table of graph-level records leave the
-- nodes as they are. The JSON of the columns is decoded on both sides.
pub mod Load
pub mod Nodes
use codespine.Common.{
  ℕ, ◌+◌, ◌≡◌, Bool, true, false, ◌&&◌, Option, some, none, List, [], ◌∷◌, map, Text, get_or,
  if◌then◌else◌, text_eq, text_key, includes, length, refl, ◌∙◌,
}
use codespine.Schema.{Metadata, StoredNode, GraphNode, GraphEdge, EdgeKind}

module _ {N : Type 0} where
  -- `MATCH (n:GraphNode {id: $id}) SET n.metadata = $metadata`, on a node.
  unfoldable pub overwrite : Text → Metadata N → StoredNode N → StoredNode N
  overwrite id metadata node =
      if text_eq id node.id then record node { metadata = metadata } else node

pub record Database (N : Type 0) : Type 1 where
  pub State : Type 0
  pub nodes : State → List (StoredNode N)
  pub merge_node : GraphNode N → State → State
  pub merge_edge : GraphEdge N → State → State
  pub delete_edges : EdgeKind → State → State
  pub set_metadata : Text → Metadata N → State → State
  pub set_meta : Text → Metadata N → State → State
  pub nodes-set_metadata :
      (id : Text) (m : Metadata N) (s : State)
      → nodes (set_metadata id m s) ≡ map (overwrite id m) (nodes s)
  pub nodes-merge_edge : (e : GraphEdge N) (s : State) → nodes (merge_edge e s) ≡ nodes s
  pub nodes-delete_edges : (k : EdgeKind) (s : State) → nodes (delete_edges k s) ≡ nodes s
  pub nodes-set_meta : (k : Text) (m : Metadata N) (s : State) → nodes (set_meta k m s) ≡ nodes s

module _ {N : Type 0} (db : Database N) where
  open db use {State}

  unfoldable pub write_node_metadata : List (Text × Metadata N) → State → State
  write_node_metadata [] s = s
  write_node_metadata ((id, metadata) ∷ entries) s =
      write_node_metadata entries (db.set_metadata id metadata s)

  unfoldable pub write_edges : List (GraphEdge N) → State → State
  write_edges [] s = s
  write_edges (edge ∷ edges) s = write_edges edges (db.merge_edge edge s)

  -- The first loop of `load`, with the set of the ids.
  unfoldable pub load_nodes : List Text → List (GraphNode N) → State → List Text × State
  load_nodes ids [] s = (ids, s)
  load_nodes ids (node ∷ nodes) s =
      load_nodes (if includes ids node.id then ids else node.id ∷ ids) nodes (db.merge_node node s)

  -- The second loop: an edge with an end that is not among the ids is skipped.
  unfoldable pub load_edges : List Text → ℕ → List (GraphEdge N) → State → ℕ × State
  load_edges ids inserted [] s = (inserted, s)
  load_edges ids inserted (edge ∷ edges) s = elim (includes ids edge.from && includes ids edge.to) [
    | true ↦ load_edges ids (inserted + 1) edges (db.merge_edge edge s)
    | false ↦ load_edges ids inserted edges s
  ]

  -- The state, and the counts of nodes and edges.
  unfoldable pub load : List (GraphNode N) → List (GraphEdge N) → State → State × (ℕ × ℕ)
  unfolding load_nodes load_edges
  load nodes edges s =
      let loaded = load_nodes [] nodes s in
      let inserted = load_edges loaded.0 0 edges loaded.1 in
      (inserted.1, (length loaded.0, inserted.0))

  pub nodes-write_edges :
      (edges : List (GraphEdge N)) (s : State) → db.nodes (write_edges edges s) ≡ db.nodes s
  unfolding write_edges
  nodes-write_edges [] s = refl
  nodes-write_edges (edge ∷ edges) s =
      nodes-write_edges edges (db.merge_edge edge s) ∙ db.nodes-merge_edge edge s
