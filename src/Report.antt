-- ===== src/Report.antt =====
-- src/report/report_data.ts: the data of a report, from what the queries answer. The texts of
-- numbers, `Math.round` and `toFixed`, and the equality of keys that are numbers are parameters.
mod Types
pub mod Findings
pub mod Counts
pub mod Pareto
pub mod Gather
unfoldable pub use Types.*
use Prim.Native.Nat.{compare, Ordering}
use codespine.Common.{
  ℕ, zero, suc, ◌+◌, Bool, true, false, not, ◌&&◌, Option, none, some, List, [], ◌∷◌, ◌++◌, map,
  Text, codes, length, get_or, if◌then◌else◌, text_eq, text_key, Key, filter, take, any, sum_by,
  ltb,
}
use codespine.Common.Sort.{or_else, sort}
use codespine.Common.JsMap
use codespine.Common.JsMap.{JsMap}
use codespine.Common.Rebuild.{tally_keys}
use codespine.Schema.{Json, null, bool, num, str, arr, obj, Metadata, StoredNode, as_number}
use codespine.Query.Types.{
  Numbers, Collation, greater, SymbolRef, symbol_of, HotspotRef, HotspotReport,
}
use codespine.Query.Cost.{CostRef, CostReport}
use codespine.Cluster.Clusterer.{community_key, community_label_key}

unfoldable pub to_symbol : {N : Type 0} → SymbolRef N → ReportSymbol
to_symbol ref = record {
  name = ref.name;
  kind = ref.kind;
  file_path = ref.file_path;
  start_line = ref.start_line;
}

unfoldable pub to_ranked : {N : Type 0} → HotspotRef N → RankedSymbol N
to_ranked ref = record { symbol = to_symbol ref.symbol; score = ref.score }

unfoldable pub to_cost_node : {N : Type 0} → CostRef N → ReportCostNode N
to_cost_node ref = record {
  symbol = to_symbol ref.symbol;
  self_cost = ref.self_cost;
  inclusive_cost = ref.inclusive_cost;
  share_of_total = ref.share_of_total;
  cyclic = ref.cyclic;
  cycle_size = ref.cycle_size;
}

-- `new Set(values).size`
unfoldable pub count_distinct : List Text → ℕ
count_distinct values = length (tally_keys values [])

module _ (c : Collation) where
  -- Count downwards, then kind.
  abbrev pub by_count : KindCount → KindCount → Ordering
  by_count a b = or_else (compare b.count a.count) (c.locale_compare a.kind b.kind)

  unfoldable pub to_kind_count : Text × ℕ → KindCount
  to_kind_count (kind, count) = record { kind = kind; count = count }

  unfoldable pub count_by : List Text → List KindCount
  count_by values = sort by_count (map to_kind_count (tally_keys values []))

  unfoldable pub node_kind_counts : {N : Type 0} → List (StoredNode N) → List KindCount
  node_kind_counts nodes = count_by (map (λ node. node.kind) nodes)

  abbrev pub by_community_size : ReportCommunity → ReportCommunity → Ordering
  by_community_size a b = or_else (compare b.size a.size) (c.locale_compare a.label b.label)

unfoldable pub boundary_of : {N : Type 0} → List (StoredNode N) → ReportBoundary
boundary_of nodes =
    let of : Text → List ReportSymbol = λ kind.
      map (λ node. to_symbol (symbol_of node)) (filter (λ node. text_eq node.kind kind) nodes) in
    record {
      endpoints = of (codes "Endpoint");
      config_flags = of (codes "ConfigFlag");
      external_apis = of (codes "ExternalAPI");
    }

-- `typeof label === 'string' ? label : …`
unfoldable pub as_text : {N : Type 0} → Option (Json N) → Option Text
as_text (some (str s)) = some s
as_text (some null) = none
as_text (some (bool b)) = none
as_text (some (num x)) = none
as_text (some (arr xs)) = none
as_text (some (obj f)) = none
as_text none = none

-- The maps of sizes and of labels that the loop of `communitiesOf` fills.
pub record CommunityMaps (N : Type 0) : Type 0 where
  pub community_sizes : JsMap N ℕ
  pub community_labels : JsMap N Text

module _ (n : Numbers) where
  open n use {Number}

  module _ ⦃number_key : Key Number⦄ where
    -- The first label of a community is kept.
    unfoldable pub keep_label : Number → Option Text → JsMap Number Text → JsMap Number Text
    keep_label index none labels = labels
    keep_label index (some label) labels =
        if JsMap.has labels index then labels else JsMap.set labels index label

    unfoldable pub add_member :
        Option Number → Option Text → CommunityMaps Number → CommunityMaps Number
    add_member none label maps = maps
    add_member (some index) label maps = record {
      community_sizes =
          JsMap.set maps.community_sizes index
            (get_or (JsMap.get maps.community_sizes index) 0 + 1);
      community_labels = keep_label index label maps.community_labels;
    }

    -- The community of a node, where its metadata has a number for it.
    unfoldable pub community_of_node : StoredNode Number → Option Number
    community_of_node node = as_number (JsMap.get node.metadata community_key)

    unfoldable pub community_maps :
        List (StoredNode Number) → CommunityMaps Number → CommunityMaps Number
    community_maps [] maps = maps
    community_maps (node ∷ nodes) maps = community_maps nodes (
        add_member (community_of_node node) (as_text (JsMap.get node.metadata community_label_key))
          maps)

    unfoldable pub to_community : (Number → Text) → JsMap Number Text → Number × ℕ → ReportCommunity
    to_community show_number labels (index, size) = record {
      label = get_or (JsMap.get labels index) (codes "community " ++ show_number index);
      size = size;
    }

    unfoldable pub communities_of :
        Collation → (Number → Text) → List (StoredNode Number) → List ReportCommunity
    communities_of c show_number nodes =
        let maps = community_maps nodes (record { community_sizes = []; community_labels = [] }) in
        sort (by_community_size c)
          (map (to_community show_number maps.community_labels) maps.community_sizes)

  -- `(fanIn.get(id) ?? 0) <= HIDDEN_HOTSPOT_MAX_CALLERS`
  unfoldable pub is_hidden : JsMap Text Number → HotspotRef Number → Bool
  is_hidden fan_in hotspot =
      not (greater n.compare (get_or (JsMap.get fan_in hotspot.symbol.id) n.zero) n.one)

  -- `selfCost === 0 && inclusiveCost > 0`
  unfoldable pub is_orchestrator : CostRef Number → Bool
  is_orchestrator node =
      (elim (n.compare node.self_cost n.zero) [ Ordering.eq ↦ true | _ ↦ false ])
      && greater n.compare node.inclusive_cost n.zero

  unfoldable pub synthesize :
      List (CostRef Number) → List (HotspotRef Number) → JsMap Text Number → StructureVsRuntime
  synthesize cost hottest fan_in = record {
    orchestrators = map (λ node. to_symbol node.symbol) (take 5 (filter is_orchestrator cost));
    hidden_hotspots =
        map (λ hotspot. to_symbol hotspot.symbol) (take 5 (filter (is_hidden fan_in) hottest));
    aligned_core =
        map (λ hotspot. to_symbol hotspot.symbol)
          (take 5 (filter (λ hotspot. not (is_hidden fan_in hotspot)) hottest));
  }

  -- `typeof quality === 'number' ? quality : null`, of the clustering manifest.
  unfoldable pub read_community_quality : Option (Metadata Number) → Option Number
  read_community_quality none = none
  read_community_quality (some raw) = as_number (JsMap.get raw (codes "quality"))
