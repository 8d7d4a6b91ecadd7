-- ===== src/Cluster/Clusterer.antt =====
-- src/cluster/graph_clusterer.ts and the weights of src/cluster/cluster_weights.ts. The rows that the
-- store answers for the kinds that are asked for are a parameter.
pub mod Assigned
pub mod Peak
use Prim.Native.Nat.{compare, Ordering}
use codespine.Common.{
  ℕ, zero, suc, Bool, true, false, Option, none, some, List, [], ◌∷◌, map, Text, codes, length,
  get_or, if◌then◌else◌, text_key, nat_key, filter,
}
use codespine.Common.JsMap
use codespine.Common.JsMap.{JsMap}
use codespine.Schema.{
  EdgeKind, edge_kinds, calls, calls_runtime, instantiates, extends, implements, overrides, writes,
  reads, uses_type, returns, param_type, contains, imports, exports, reads_config, calls_external,
  handles, Json, num, str, arr, Items, nil, cons, Metadata, StoredNode, as_number,
}
use codespine.Query.Types.{Numbers, greater}
use codespine.Query.Rows.{KuzuValue, EdgeRow, parse_metadata, call_count_of}
use codespine.Store.{Database, write_node_metadata}
use codespine.Cluster.Detector.{WeightedEdge, CommunityOptions, CommunityResult, Leiden, detect}
use codespine.Cluster.Labeler.{LabelableNode, label, ordinal}

abbrev pub community_key : Text
community_key = codes "community"

abbrev pub community_label_key : Text
community_label_key = codes "communityLabel"

abbrev pub clustering_key : Text
clustering_key = codes "clustering"

unfoldable pub is_runtime : EdgeKind → Bool
is_runtime calls_runtime = true
is_runtime _ = false

-- A row of an edge, with its kind.
pub record KindRow : Type 0 where
  pub edge : EdgeRow
  pub kind : EdgeKind

pub record ClusterReport (N : Type 0) : Type 0 where
  pub nodes_assigned : ℕ
  pub community_count : ℕ
  pub quality : N
  pub resolution : N
  pub sizes : List ℕ
  pub labels : List Text

-- What the labeler reads of a node.
unfoldable pub labelable_of : {N : Type 0} → StoredNode N → LabelableNode
labelable_of node = record {
  id = node.id;
  name = node.name;
  kind = node.kind;
  file_path = node.file_path;
}

-- `labels.get(index) ?? 'community ' + index`
unfoldable pub label_at : JsMap ℕ Text → ℕ → Text
label_at labels index = get_or (JsMap.get labels index) (ordinal index)

-- The labels of the indices from one on, as many as are left.
unfoldable pub order_labels : JsMap ℕ Text → ℕ → ℕ → List Text
order_labels labels index zero = []
order_labels labels index (suc left) = label_at labels index ∷ order_labels labels (suc index) left

module _ (n : Numbers) where
  open n use {Number, of_ℕ, div, mul}

  -- CLUSTER_EDGE_WEIGHTS
  unfoldable pub cluster_edge_weights : EdgeKind → Option Number
  cluster_edge_weights calls = some (of_ℕ 3)
  cluster_edge_weights calls_runtime = some (of_ℕ 4)
  cluster_edge_weights instantiates = some (of_ℕ 2)
  cluster_edge_weights extends = some (of_ℕ 2)
  cluster_edge_weights implements = some (of_ℕ 2)
  cluster_edge_weights overrides = some (div (of_ℕ 3) (of_ℕ 2))
  cluster_edge_weights writes = some (div (of_ℕ 3) (of_ℕ 2))
  cluster_edge_weights reads = some (of_ℕ 1)
  cluster_edge_weights uses_type = some (of_ℕ 1)
  cluster_edge_weights returns = some (of_ℕ 1)
  cluster_edge_weights param_type = some (of_ℕ 1)
  cluster_edge_weights contains = some (div (of_ℕ 1) (of_ℕ 2))
  cluster_edge_weights imports = none
  cluster_edge_weights exports = none
  cluster_edge_weights reads_config = none
  cluster_edge_weights calls_external = none
  cluster_edge_weights handles = none

  -- `weights[kind] ?? 0`
  unfoldable pub coefficient : (EdgeKind → Option Number) → EdgeKind → Number
  coefficient weights kind = get_or (weights kind) n.zero

  module _ (parse_json : Text → Option (Json Number)) where
    -- `typeof samples === 'number' && samples > 0 ? samples : 0`
    unfoldable pub runtime_samples : KuzuValue → Number
    runtime_samples value =
        elim (as_number (JsMap.get (parse_metadata n parse_json value) (codes "samples"))) [
          | none ↦ n.zero
          | some samples ↦ if greater n.compare samples n.zero then samples else n.zero
        ]

    -- `Math.max(max, samples)` over the runtime rows.
    unfoldable pub max_runtime_samples : Number → List KindRow → Number
    max_runtime_samples max [] = max
    max_runtime_samples max (row ∷ rows) =
        let samples = runtime_samples row.edge.metadata in
        max_runtime_samples
          (if is_runtime row.kind
            then (if greater n.compare samples max then samples else max)
            else max)
          rows

    unfoldable pub strength : Number → KindRow → Number
    strength max row =
        if is_runtime row.kind
        then (if greater n.compare max n.zero
            then div (runtime_samples row.edge.metadata) max
            else n.zero)
        else call_count_of n parse_json row.edge.metadata

    unfoldable pub to_weighted_edge :
        (EdgeKind → Option Number) → Number → KindRow → WeightedEdge Number
    to_weighted_edge weights max row = record {
      from = row.edge.from_id;
      to = row.edge.to_id;
      weight = mul (coefficient weights row.kind) (strength max row);
    }

    unfoldable pub read_weighted_edges :
        (List EdgeKind → List KindRow) → (EdgeKind → Option Number) → List (WeightedEdge Number)
    read_weighted_edges run weights =
        elim (filter (λ kind. greater n.compare (coefficient weights kind) n.zero) edge_kinds) [
          | [] ↦ []
          | kind ∷ kinds ↦
              let rows = run (kind ∷ kinds) in
              map (to_weighted_edge weights (max_runtime_samples n.zero rows)) rows
        ]

  -- A node's metadata with its community and the label of that.
  unfoldable pub with_community : JsMap ℕ Text → ℕ → Metadata Number → Metadata Number
  with_community labels index metadata =
      JsMap.set (JsMap.set metadata community_key (num (of_ℕ index))) community_label_key
        (str (label_at labels index))

  -- The loop that collects `updates`.
  unfoldable pub community_updates :
      JsMap Text ℕ → JsMap ℕ Text → List (StoredNode Number) → List (Text × Metadata Number)
  community_updates community_of labels [] = []
  community_updates community_of labels (node ∷ nodes) = elim (JsMap.get community_of node.id) [
    | none ↦ community_updates community_of labels nodes
    | some index ↦
        (node.id, with_community labels index node.metadata)
        ∷ community_updates community_of labels nodes
  ]

  unfoldable pub text_items : List Text → Items Number
  text_items [] = nil
  text_items (t ∷ ts) = cons (str t) (text_items ts)

  unfoldable pub clustering_manifest : Number → CommunityResult Number → List Text → Metadata Number
  clustering_manifest resolution result labels =
      (codes "algorithm", str (codes "leiden-cpm"))
      ∷ (codes "resolution", num resolution)
      ∷ (codes "communityCount", num (of_ℕ result.community_count))
      ∷ (codes "quality", num result.quality)
      ∷ (codes "labels", arr (text_items labels))
      ∷ []

  module _ (l : Leiden Number) (parse_json : Text → Option (Json Number))
      (db : Database Number) where
    open db use {State}

    unfoldable pub cluster :
        (State → List EdgeKind → List KindRow)
        → (EdgeKind → Option Number)
        → CommunityOptions Number
        → State
        → State × ClusterReport Number
    cluster run weights options s =
        let edges = read_weighted_edges parse_json (run s) weights in
        let result = detect n l edges options in
        let nodes = db.nodes s in
        let labels = label n result.community_of (map labelable_of nodes) edges in
        let updates = community_updates result.community_of labels nodes in
        let written = write_node_metadata db updates s in
        let ordered = order_labels labels 0 result.community_count in
        (
          db.set_meta clustering_key (clustering_manifest options.resolution result ordered)
              written,
          record {
            nodes_assigned = length updates;
            community_count = result.community_count;
            quality = result.quality;
            resolution = options.resolution;
            sizes = result.sizes;
            labels = ordered;
          },
        )
