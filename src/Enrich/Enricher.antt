-- ===== src/Enrich/Enricher.antt =====
-- `RuntimeEnricher.enrich` of src/enrich/runtime_enricher.ts, on a database.
pub mod Attached
pub mod Again
use Prim.Native.Nat.{compare, Ordering}
use codespine.Common.{
  ℕ, ◌+◌, Option, none, some, List, [], ◌∷◌, ◌++◌, map, Text, codes, length, get_or, text_key,
}
use codespine.Common.Sort.{or_else, sort}
use codespine.Common.JsMap
use codespine.Common.JsMap.{JsMap, values}
use codespine.Schema.{
  Json, num, str, obj, field, end, Metadata, StoredNode, GraphEdge, calls_runtime,
}
use codespine.Query.Types.{Numbers}
use codespine.Query.Cost.Report.{node_by_id}
use codespine.Store.{Database, write_node_metadata, write_edges}
use codespine.Enrich.Profile.{CpuProfileData, aggregate, total_samples}
use codespine.Enrich.CallTree.{call_edges}
use codespine.Enrich.Join.Resolve.{NodePath, TargetNode}
use codespine.Enrich.Join.{
  Attribution, DroppedGroup, RuntimeEdge, join, join_call_edges, dropped_groups,
}

-- RUNTIME_SOURCE_CPU_PROFILE, RUNTIME_METADATA_KEY
abbrev pub runtime_source : Text
runtime_source = codes "v8-cpuprofile"

abbrev pub runtime_key : Text
runtime_key = codes "runtime"

pub record Hotspot (N : Type 0) : Type 0 where
  pub id : Text
  pub name : Text
  pub kind : Text
  pub file_path : Text
  pub self_ms : N
  pub samples : ℕ

pub record EnrichReport (N : Type 0) : Type 0 where
  pub total_samples : ℕ
  pub matched_nodes : ℕ
  pub matched_frames : ℕ
  pub matched_samples : ℕ
  pub matched_self_ms : N
  pub matched_by_name : ℕ
  pub matched_by_range : ℕ
  pub dropped_frames : ℕ
  pub dropped_samples : ℕ
  pub runtime_edges : ℕ
  pub dropped_call_edges : ℕ
  pub dropped : List DroppedGroup
  pub hotspots : List (Hotspot N)

-- The fields of a node that the join reads.
unfoldable pub target_of : {N : Type 0} → StoredNode N → TargetNode
target_of node = record {
  id = node.id;
  kind = node.kind;
  name = node.name;
  file_path = node.file_path;
  start_line = node.start_line;
  end_line = node.end_line;
}

module _ (n : Numbers) where
  open n use {Number, of_ℕ, div}

  -- `Math.round(micros) / 1000`; the microseconds are whole.
  unfoldable pub micros_to_ms : ℕ → Number
  micros_to_ms micros = div (of_ℕ micros) (of_ℕ 1000)

  unfoldable pub to_metrics : Attribution → Json Number
  unfolding micros_to_ms
  to_metrics a = obj (
      field (codes "source") (str runtime_source) (
        field (codes "samples") (num (of_ℕ a.samples)) (
          field (codes "selfMicros") (num (of_ℕ a.self_micros))
            (field (codes "selfMs") (num (micros_to_ms a.self_micros)) end))))

  -- The entries of `updates`: the metadata of an attributed node with its metrics.
  unfoldable pub updates_of :
      JsMap Text (StoredNode Number) → JsMap Text Attribution → List (Text × Metadata Number)
  unfolding to_metrics
  updates_of by_id [] = []
  updates_of by_id ((id, a) ∷ rest) = elim (JsMap.get by_id id) [
    | none ↦ updates_of by_id rest
    | some node ↦ (id, JsMap.set node.metadata runtime_key (to_metrics a)) ∷ updates_of by_id rest
  ]

  unfoldable pub hotspots_of :
      JsMap Text (StoredNode Number) → JsMap Text Attribution → List (Hotspot Number)
  unfolding micros_to_ms
  hotspots_of by_id [] = []
  hotspots_of by_id ((id, a) ∷ rest) = elim (JsMap.get by_id id) [
    | none ↦ hotspots_of by_id rest
    | some node ↦
        record {
          id = id;
          name = node.name;
          kind = node.kind;
          file_path = node.file_path;
          self_ms = micros_to_ms a.self_micros;
          samples = a.samples;
        }
        ∷ hotspots_of by_id rest
  ]

  -- Self time downwards, then samples downwards.
  abbrev pub by_self_ms : Hotspot Number → Hotspot Number → Ordering
  by_self_ms a b = or_else (n.compare b.self_ms a.self_ms) (compare b.samples a.samples)

  unfoldable pub to_call_edge : RuntimeEdge → GraphEdge Number
  to_call_edge e = record {
    id = codes "CALLS_RUNTIME:" ++ e.from ++ codes "->" ++ e.to;
    kind = calls_runtime;
    from = e.from;
    to = e.to;
    metadata =
        some ((codes "source", str runtime_source) ∷ (codes "samples", num (of_ℕ e.samples)) ∷ []);
  }

  unfoldable pub manifest_of : ℕ → ℕ → ℕ → ℕ → Metadata Number
  manifest_of total matched total_micros matched_micros =
      (codes "source", str runtime_source)
      ∷ (codes "totalSamples", num (of_ℕ total))
      ∷ (codes "matchedSamples", num (of_ℕ matched))
      ∷ (codes "totalSelfMicros", num (of_ℕ total_micros))
      ∷ (codes "matchedSelfMicros", num (of_ℕ matched_micros))
      ∷ []

  module _ (db : Database Number) (p : NodePath) where
    open db use {State}

    unfoldable pub enrich : CpuProfileData → Text → State → State × EnrichReport Number
    unfolding updates_of hotspots_of to_call_edge manifest_of target_of
    enrich profile root s =
        let nodes = db.nodes s in
        let targets = map target_of nodes in
        let result = join p targets (aggregate profile) root in
        let by_id = node_by_id n [] nodes in
        let updates = updates_of by_id result.attributions in
        let written = write_node_metadata db updates s in
        let total_micros = result.matched_self_micros + result.dropped_self_micros in
        let manifest =
          manifest_of (total_samples profile) result.matched_samples total_micros
            result.matched_self_micros in
        let recorded = db.set_meta runtime_key manifest written in
        let edges = join_call_edges p targets (get_or (call_edges profile) []) root in
        let cleared = db.delete_edges calls_runtime recorded in
        (
          write_edges db (map to_call_edge (values edges.aggregated)) cleared,
          record {
            total_samples = total_samples profile;
            matched_nodes = length updates;
            matched_frames = result.matched_frames;
            matched_samples = result.matched_samples;
            matched_self_ms = micros_to_ms result.matched_self_micros;
            matched_by_name = result.matched_by_name;
            matched_by_range = result.matched_by_range;
            dropped_frames = result.dropped_frames;
            dropped_samples = result.dropped_samples;
            runtime_edges = edges.matched_edges;
            dropped_call_edges = edges.dropped_edges;
            dropped = dropped_groups result;
            hotspots = sort by_self_ms (hotspots_of by_id result.attributions);
          },
        )
