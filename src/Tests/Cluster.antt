-- ===== src/Tests/Cluster.antt =====
-- Communities of a small graph.
use Prim.Native.Nat.{◌%◌, compare}
use codespine.Common.{
  collect, ℕ, ◌≡◌, ◌≢◌, ◌⊎◌, refl, none, some, Option, Text, List, [], ◌∷◌, codes, arith, length,
  filter, sum_by, text_eq, text_key, nat_key, map, any,
}
use codespine.Common.Sort.{sort, insert, IsSorted}
use codespine.Common.First.{IsFirst}
use codespine.Common.Digits.{pair_key}
use codespine.Common.Strings.{show, digits_fuel}
use codespine.Common.JsMap
use codespine.Common.JsMap.{JsMap, values, keys}
use codespine.Schema.{
  Json, num, str, arr, nil, cons, Items, Metadata, calls_runtime, obj, field, end,
}
use codespine.Query.Rows.{text, parse_metadata, record_of, fields_map}
use codespine.Cluster.Detector.{
  index_nodes, unpack, merge_pairs, merge_edge_pair, merge_pair, WeightedEdge, CommunityOptions,
  Leiden, symmetrize, detect,
}
use codespine.Cluster.Detector.Index.{IsIndex, touches, index_nodes-IsIndex}
use codespine.Cluster.Detector.Merge.{listed, weight_between}
use codespine.Cluster.Detector.Pairs.{symmetrize-weights}
use codespine.Cluster.Detector.Best.{IsBestOrNone, detect-IsBestPartition}
use codespine.Cluster.Labeler.{
  LabelableNode, label, display_name, by_degree, hub_name, compose_label, rename_by_index,
}
use codespine.Cluster.Labeler.Shared.{renamed, labels_with_hubs, label-renamed}
use codespine.Cluster.Labeler.Hub.{hub_name-IsFirst, compose_label_stable}
use codespine.Cluster.Clusterer.{
  KindRow, cluster, runtime_samples, is_runtime, max_runtime_samples, cluster_edge_weights,
}
use codespine.Cluster.Clusterer.Assigned.{assigned, communities, labels_of, cluster-nodes}
use codespine.Cluster.Clusterer.Peak.{Bounds, IsSamples, max_runtime_samples-Bounds}
use codespine.Cluster.Namer.{
  AssignedNode, update_manifest_labels, plan_renames, plan_loop, plan_index, group_by_community,
  add_to_group, current_label_of, by_summary_size, summarize, item_at,
}
use codespine.Cluster.Namer.Groups.{members_of, is_assigned, summarize-IsSorted}
use codespine.Cluster.Namer.Plan.{requested_change, is_empty, plan_renames-collect}
use codespine.Cluster.Namer.Manifest.{relabelled, update_manifest_labels-item_at}
use codespine.Tests.Samples.{naturals, database, tables}

abbrev edge_of : Text → Text → ℕ → WeightedEdge ℕ
edge_of from to weight = record { from = from; to = to; weight = weight }

abbrev a_id : Text
a_id = codes "a"

abbrev b_id : Text
b_id = codes "b"

abbrev edges : List (WeightedEdge ℕ)
edges = edge_of a_id b_id 2 ∷ edge_of b_id a_id 3 ∷ edge_of a_id a_id 9 ∷ []

abbrev leiden : Leiden ℕ
leiden = record {
  Clustering = ℕ;
  improved = λ network options start. start;
  calc_quality = λ network options c. some (c % 3);
  ordered = λ c. c;
  cluster_of = λ c i. 0;
  n_clusters = λ c. 1;
  n_nodes_per_cluster = λ c. 2 ∷ [];
  cluster_of-bound = λ c i. omega arith;
}

abbrev options : CommunityOptions ℕ
options = record { resolution = 1; iterations = 10; random_starts = 10 }

symmetrize_run : (symmetrize naturals edges ((a_id, 0) ∷ (b_id, 1) ∷ [])).weights ≡ 5 ∷ []
unfolding symmetrize unpack merge_pairs merge_edge_pair merge_pair JsMap.get JsMap.set text_eq
    pair_key show digits_fuel
symmetrize_run = refl

index_nodes-IsIndex_example :
    IsIndex (index_nodes edges)
    × ((id : Text) → JsMap.has (index_nodes edges).index_of id ≡ any (touches id) edges)
index_nodes-IsIndex_example = index_nodes-IsIndex edges

abbrev indices : JsMap Text ℕ
indices = (a_id, 0) ∷ (b_id, 1) ∷ []

symmetrize-weights_example :
    listed
      (symmetrize naturals edges indices).sources
      (symmetrize naturals edges indices).targets
      (symmetrize naturals edges indices).weights
      0
      1
    ≡ weight_between naturals indices 0 1 edges none
symmetrize-weights_example = symmetrize-weights naturals edges indices 0 1

detect-IsBestPartition_example :
    IsBestOrNone naturals leiden options
      (edge_of a_id b_id 2)
      []
      (detect naturals leiden (edge_of a_id b_id 2 ∷ []) options)
detect-IsBestPartition_example =
    detect-IsBestPartition naturals leiden options (edge_of a_id b_id 2) []

abbrev labelable : Text → Text → Text → LabelableNode
labelable id name path = record { id = id; name = name; kind = codes "Function"; file_path = path }

abbrev members : List LabelableNode
members =
    labelable a_id (codes "f") (codes "src/a.ts")
    ∷ labelable b_id (codes "g") (codes "lib/b.ts")
    ∷ []

abbrev one_each : JsMap Text ℕ
one_each = (a_id, 0) ∷ (b_id, 1) ∷ []

label-renamed_example :
    label naturals one_each members edges
    ≡ map
        (renamed rename_by_index (values (labels_with_hubs naturals one_each members edges)))
        (labels_with_hubs naturals one_each members edges)
label-renamed_example = label-renamed naturals one_each members edges

hub_name-IsFirst_example :
    (node : LabelableNode) × ((hub_name naturals members ((b_id, 4) ∷ [])
        ≡ some (display_name node))
      × IsFirst (by_degree naturals ((b_id, 4) ∷ [])) members node)
hub_name-IsFirst_example =
    hub_name-IsFirst naturals ((b_id, 4) ∷ []) (labelable a_id (codes "f") (codes "src/a.ts"))
      (labelable b_id (codes "g") (codes "lib/b.ts") ∷ [])

compose_label_stable_example :
    compose_label naturals 3 members (hub_name naturals members [])
    ≡ compose_label naturals 7 members (hub_name naturals members [])
compose_label_stable_example =
    compose_label_stable naturals 3 7 (labelable a_id (codes "f") (codes "src/a.ts"))
      (labelable b_id (codes "g") (codes "lib/b.ts") ∷ []) []

abbrev row_of : Text → Text → Text → KindRow
row_of from to metadata = record {
  edge = record { from_id = from; to_id = to; metadata = text metadata };
  kind = calls_runtime;
}

abbrev parse : Text → Option (Json ℕ)
parse t = some (obj (field (codes "samples") (num (length t)) end))

abbrev rows : List KindRow
rows =
    row_of (codes "f") (codes "g") (codes "12345")
    ∷ row_of (codes "g") (codes "f") (codes "12")
    ∷ []

max_runtime_samples_run : max_runtime_samples naturals parse 0 rows ≡ 5
unfolding max_runtime_samples runtime_samples parse_metadata record_of fields_map JsMap.get text_eq
    is_runtime
max_runtime_samples_run = refl

max_runtime_samples-Bounds_example :
    Bounds naturals parse (max_runtime_samples naturals parse 0 rows) rows
    × ((max_runtime_samples naturals parse 0 rows ≡ 0)
        ⊎ IsSamples naturals parse (max_runtime_samples naturals parse 0 rows) rows)
max_runtime_samples-Bounds_example = max_runtime_samples-Bounds naturals parse rows

cluster-nodes_example :
    database.nodes
      (cluster naturals leiden parse database
        (λ s kinds. rows)
        (cluster_edge_weights naturals)
        options
        tables).0
    ≡ map
        (assigned naturals
          (communities naturals leiden parse database
            (λ s kinds. rows)
            (cluster_edge_weights naturals)
            options
            tables)
          (labels_of naturals leiden parse database
            (λ s kinds. rows)
            (cluster_edge_weights naturals)
            options
            tables))
        tables.nodes
cluster-nodes_example =
    cluster-nodes naturals leiden parse database (λ s kinds. rows) (cluster_edge_weights naturals)
      options tables (unfold text_eq in ((refl, tt), (tt, tt)))

abbrev assigned_node : Text → Option ℕ → Option Text → AssignedNode
assigned_node id community current_label = record {
  id = id;
  name = id;
  kind = codes "Function";
  file_path = codes "a.ts";
  community = community;
  current_label = current_label;
}

abbrev assigned_nodes : List AssignedNode
assigned_nodes =
    assigned_node a_id (some 1) (some (codes "old"))
    ∷ assigned_node b_id none none
    ∷ assigned_node (codes "c") (some 1) none
    ∷ []

summarize-IsSorted_example :
    IsSorted by_summary_size (summarize assigned_nodes).communities
    × (sum_by (λ s. s.size) (summarize assigned_nodes).communities
        ≡ length (filter is_assigned assigned_nodes))
summarize-IsSorted_example = summarize-IsSorted assigned_nodes

abbrev request : JsMap ℕ Text
request = (2, codes "x") ∷ (1, codes "new") ∷ []

plan_renames-collect_example :
    IsSorted compare (sort compare (keys request))
    × ((plan_renames assigned_nodes request).changes
        ≡ collect (requested_change request assigned_nodes) (sort compare (keys request)))
    × ((plan_renames assigned_nodes request).unknown_indexes
        ≡ filter (λ i. is_empty (members_of assigned_nodes i)) (sort compare (keys request)))
plan_renames-collect_example = plan_renames-collect request assigned_nodes

plan_renames_run : (plan_renames assigned_nodes request).unknown_indexes ≡ 2 ∷ []
unfolding plan_renames plan_loop plan_index group_by_community add_to_group JsMap.get JsMap.set sort
    insert current_label_of text_eq
plan_renames_run = refl

abbrev manifest : Metadata ℕ
manifest = (codes "labels", arr (cons (str (codes "p")) (cons (str (codes "q")) nil))) ∷ []

update_manifest_labels-item_at_example :
    (updated : Metadata ℕ) × (result : Items ℕ) × (update_manifest_labels (some manifest) request
      ≡ some updated)
    × (JsMap.get updated (codes "labels") ≡ some (arr result))
    × ((i : ℕ)
        → item_at result i
          ≡ relabelled
              (JsMap.get request i)
              (item_at (cons (str (codes "p")) (cons (str (codes "q")) nil)) i))
    × ((key : Text) → key ≢ codes "labels" → JsMap.get updated key ≡ JsMap.get manifest key)
update_manifest_labels-item_at_example =
    update_manifest_labels-item_at manifest request
      (cons (str (codes "p")) (cons (str (codes "q")) nil)) (unfold JsMap.get in (refl, (refl, tt)))
      (unfold JsMap.get text_eq in refl)
