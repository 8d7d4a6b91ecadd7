-- ===== src/Builder.antt =====
-- src/extract/graph_builder.ts: the two maps of a `GraphBuilder` and how extractions are merged into
-- them. The extractors read a `ts-morph` project; what they return is the input. Numbers are ℕ: the
-- builder's own are the occurrence counts.
pub mod Counts
pub mod Emitted
use codespine.Common.{
  ℕ, ◌+◌, Bool, true, false, not, ◌&&◌, Option, none, some, List, [], ◌∷◌, Text, codes, get_or,
  filter, text_key, if◌then◌else◌,
}
use codespine.Common.Strings.{contains, ends_with}
use codespine.Common.JsMap
use codespine.Common.JsMap.{JsMap, values}
use codespine.Schema.{GraphNode, GraphEdge, Metadata, Json, num, as_number}

abbrev pub Node : Type 0
Node = GraphNode ℕ

abbrev pub Edge : Type 0
Edge = GraphEdge ℕ

pub record Extraction : Type 0 where
  pub nodes : List Node
  pub edges : List Edge

pub record GraphBuilder : Type 0 where
  pub nodes : JsMap Text Node
  pub edges : JsMap Text Edge

abbrev pub empty : GraphBuilder
empty = record { nodes = []; edges = [] }

-- `{ ...metadata, count: n }`
unfoldable pub with_count : Option (Metadata ℕ) → ℕ → Option (Metadata ℕ)
with_count m n = some (JsMap.set (get_or m []) (codes "count") (num n))

-- `typeof metadata?.count === 'number' ? metadata.count : 1`
unfoldable pub current_count : Option (Metadata ℕ) → ℕ
current_count m = get_or (as_number (JsMap.get (get_or m []) (codes "count"))) 1

-- What `addEdge` leaves under the id: `existing` is the object that the map holds, so writing its
-- metadata is writing the entry.
unfoldable pub stored_edge : Option Edge → Edge → Edge
stored_edge none edge = record edge { metadata = with_count edge.metadata 1 }
stored_edge (some existing) edge = record existing {
  metadata = with_count existing.metadata (current_count existing.metadata + 1);
}

unfoldable pub add_edge : JsMap Text Edge → Edge → JsMap Text Edge
add_edge edges edge = JsMap.set edges edge.id (stored_edge (JsMap.get edges edge.id) edge)

unfoldable pub add_edges : JsMap Text Edge → List Edge → JsMap Text Edge
add_edges m [] = m
add_edges m (e ∷ es) = add_edges (add_edge m e) es

unfoldable pub add_nodes : JsMap Text Node → List Node → JsMap Text Node
add_nodes m [] = m
add_nodes m (n ∷ ns) = add_nodes (JsMap.set m n.id n) ns

unfoldable pub merge : GraphBuilder → Extraction → GraphBuilder
merge b x = record { nodes = add_nodes b.nodes x.nodes; edges = add_edges b.edges x.edges }

unfoldable pub is_project_file : Text → Bool
is_project_file path =
    not (contains path (codes "/node_modules/")) && not (ends_with path (codes ".d.ts"))

-- The extractors, and the path of a source file of the `ts-morph` project.
pub record Extractors (F : Type 0) : Type 0 where
  pub file_path : F → Text
  pub structural : F → Extraction
  pub config : F → Extraction
  pub api : F → Extraction
  pub semantic : F → Extraction
  pub endpoint : F → Extraction

module _ {F : Type 0} (x : Extractors F) where
  unfoldable pub build_structure : GraphBuilder → List F → GraphBuilder
  build_structure b [] = b
  build_structure b (f ∷ fs) =
      build_structure (merge (merge (merge b (x.structural f)) (x.config f)) (x.api f)) fs

  unfoldable pub build_semantics : GraphBuilder → List F → GraphBuilder
  build_semantics b [] = b
  build_semantics b (f ∷ fs) = build_semantics (merge (merge b (x.semantic f)) (x.endpoint f)) fs

  unfoldable pub build : GraphBuilder → List F → Bool → GraphBuilder
  build b files semantic =
      let source_files = filter (λ f. is_project_file (x.file_path f)) files in
      let structure = build_structure b source_files in
      if semantic then build_semantics structure source_files else structure

unfoldable pub get_nodes : GraphBuilder → List Node
get_nodes b = values b.nodes

unfoldable pub get_edges : GraphBuilder → List Edge
get_edges b = values b.edges
