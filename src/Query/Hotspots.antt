-- ===== src/Query/Hotspots.antt =====
-- `GraphQuery.hotspots`, `scoreNodes` and `deadExports` of src/query/graph_query.ts.
pub mod Ranking
use Prim.Native.Nat.{compare, Ordering}
use codespine.Common.{
  ℕ, Bool, true, false, not, ◌&&◌, Option, none, some, List, [], ◌∷◌, map, Text, codes, get_or,
  if◌then◌else◌, filter, any, text_key,
}
use codespine.Common.Sort.{or_else, top}
use codespine.Common.JsMap
use codespine.Common.JsMap.{JsMap}
use codespine.Schema.{Json, StoredNode}
use codespine.Query.Types.{
  Numbers, Collation, greater, SymbolRef, symbol_of, HotspotMetric, self_time, samples, callers,
  call_count, blast_radius, HotspotRef, HotspotReport, CallEdge,
}
use codespine.Query.Clamp.{JsNumber, clamp_limit}
use codespine.Query.Rows.{EdgeRow, SymbolRow, read_call_edges, to_refs, has_runtime, runtime_value}
use codespine.Query.Radius.{blast_radius_sizes, sum_inbound}
use codespine.Query.Allowlist.{is_framework_entry_point}

pub record HotspotOptions : Type 0 where
  pub by : Option HotspotMetric
  pub limit : Option JsNumber
  pub measured_only : Option Bool

unfoldable pub is_runtime_metric : HotspotMetric → Bool
is_runtime_metric self_time = true
is_runtime_metric samples = true
is_runtime_metric callers = false
is_runtime_metric call_count = false
is_runtime_metric blast_radius = false

-- A node with the score it earned.
pub record Entry (N : Type 0) : Type 0 where
  pub node : StoredNode N
  pub score : N

module _ (n : Numbers) where
  open n use {Number, zero, one, of_ℕ, add}

  -- `new Map(nodes.map((node) => [node.id, f(node)]))`
  unfoldable pub map_nodes :
      (StoredNode Number → Number)
      → JsMap Text Number
      → List (StoredNode Number)
      → JsMap Text Number
  map_nodes f m [] = m
  map_nodes f m (node ∷ nodes) = map_nodes f (JsMap.set m node.id (f node)) nodes

  unfoldable pub score_nodes :
      List (StoredNode Number) → List (CallEdge Number) → HotspotMetric → JsMap Text Number
  unfolding map_nodes
  score_nodes nodes edges self_time =
      map_nodes (λ node. runtime_value n node.metadata (codes "selfMs")) [] nodes
  score_nodes nodes edges samples =
      map_nodes (λ node. runtime_value n node.metadata (codes "samples")) [] nodes
  score_nodes nodes edges callers = sum_inbound add zero (λ edge. one) [] edges
  score_nodes nodes edges call_count = sum_inbound add zero (λ edge. edge.count) [] edges
  score_nodes nodes edges blast_radius = map (λ e. (e.0, of_ℕ e.1)) (blast_radius_sizes nodes edges)

  unfoldable pub is_enriched : List (StoredNode Number) → Bool
  is_enriched nodes = any (λ node. has_runtime n node.metadata) nodes

  unfoldable pub requested_metric : Option HotspotMetric → Bool → HotspotMetric
  requested_metric none enriched = if enriched then self_time else callers
  requested_metric (some by) enriched = by

  unfoldable pub ranked_metric : HotspotMetric → Bool → HotspotMetric
  unfolding is_runtime_metric
  ranked_metric requested enriched =
      if is_runtime_metric requested && not enriched then callers else requested

  -- The candidates with their scores, those that score above zero.
  unfoldable pub scored : JsMap Text Number → List (StoredNode Number) → List (Entry Number)
  scored scores candidates =
      filter (λ e. greater n.compare e.score zero)
        (map (λ node. record { node = node; score = get_or (JsMap.get scores node.id) zero })
          candidates)

  unfoldable pub candidates_of : Bool → List (StoredNode Number) → List (StoredNode Number)
  candidates_of measured_only nodes =
      if measured_only then filter (λ node. has_runtime n node.metadata) nodes else nodes

  unfoldable pub to_hotspot : HotspotMetric → Entry Number → HotspotRef Number
  unfolding symbol_of
  to_hotspot metric e = record { symbol = symbol_of e.node; score = e.score; metric = metric }

  module _ (collation : Collation) where
    -- The order of the ranking: the score downwards, then the path, then the line.
    abbrev pub by_score : Entry Number → Entry Number → Ordering
    by_score a b = or_else (n.compare b.score a.score) (
        or_else (collation.locale_compare a.node.file_path b.node.file_path)
          (compare a.node.start_line b.node.start_line))

    -- The entries of the report, in order.
    unfoldable pub ranked_entries :
        List (StoredNode Number)
        → List (CallEdge Number)
        → HotspotMetric
        → Bool
        → ℕ
        → List (Entry Number)
    unfolding scored candidates_of score_nodes
    ranked_entries nodes edges metric measured_only limit =
        top by_score limit
          (scored (score_nodes nodes edges metric) (candidates_of measured_only nodes))

    -- `nodes` are those of `readNodes` and `edges` those of `readCallEdges`.
    unfoldable pub hotspots :
        List (StoredNode Number) → List (CallEdge Number) → HotspotOptions → HotspotReport Number
    unfolding ranked_entries ranked_metric requested_metric is_enriched to_hotspot
    hotspots nodes edges options =
        let enriched = is_enriched nodes in
        let requested = requested_metric options.by enriched in
        let metric = ranked_metric requested enriched in
        let measured_only = get_or options.measured_only false in
        record {
          metric = metric;
          requested = requested;
          enriched = enriched;
          fell_back = is_runtime_metric requested && not enriched;
          measured_only = measured_only;
          hotspots =
              map (to_hotspot metric)
                (ranked_entries nodes edges metric measured_only (clamp_limit options.limit));
        }

  -- `deadExports`, from the rows of its query: exported symbols with no inbound reference.
  unfoldable pub dead_exports :
      (Text → Option (Json Number)) → List SymbolRow → List (SymbolRef Number)
  dead_exports parse_json rows =
      filter (λ ref. not (is_framework_entry_point ref.file_path)) (to_refs n parse_json rows)
