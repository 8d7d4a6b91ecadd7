-- ===== src/Report/Gather.antt =====
-- `gather` of src/report/report_data.ts, without the provenance of the sources: what the store and
-- the queries answer with is `ReportSources`, and the project's name is given.
use codespine.Common.{
  ℕ, not, ◌&&◌, Option, List, [], ◌∷◌, map, Text, codes, length, if◌then◌else◌, text_eq, text_key,
  any, sum_by, take, ltb, Key,
}
use codespine.Common.JsMap
use codespine.Common.JsMap.{JsMap}
use codespine.Schema.{Metadata, StoredNode}
use codespine.Query.Types.{Numbers, Collation, SymbolRef, HotspotRef, HotspotReport}
use codespine.Query.Cost.{CostReport}
use codespine.Report.{
  RankedSymbol, KindCount, ReportCommunity, ReportCycle, ReportBoundary, StructureVsRuntime,
  KeyFinding, ReportFigures, to_symbol, to_ranked, to_cost_node, count_distinct, count_by,
  node_kind_counts, boundary_of, communities_of, synthesize, read_community_quality,
}
use codespine.Report.Findings.{NumberTexts, findings_of, verdict_of}

pub record GatherOptions : Type 0 where
  pub generated_at : Text
  pub project : Text
  pub output_folder : Text
  pub limit : ℕ

pub record ReportSources (N : Type 0) : Type 0 where
  pub nodes : List (StoredNode N)
  pub edge_rows : List Text
  pub clustering : Option (Metadata N)
  pub callers : HotspotReport N
  pub blast : HotspotReport N
  pub self_time : HotspotReport N
  pub cost_report : CostReport N
  pub dead_exports : List (SymbolRef N)
  pub cycles : List (List (SymbolRef N))

pub record ReportTotals : Type 0 where
  pub symbols : ℕ
  pub files : ℕ
  pub relationships : ℕ
  pub communities : ℕ
  pub dead_exports : ℕ
  pub cycles : ℕ

pub record GraphReportData (N : Type 0) : Type 0 where
  pub generated_at : Text
  pub project : Text
  pub output_folder : Text
  pub coverage : Option N
  pub limit : ℕ
  pub totals : ReportTotals
  pub figures : ReportFigures N
  pub verdict : Text
  pub node_kinds : List KindCount
  pub edge_kinds : List KindCount
  pub hubs_by_callers : List (RankedSymbol N)
  pub community_quality : Option N
  pub communities : List ReportCommunity
  pub structure_vs_runtime : StructureVsRuntime
  pub cycles : List ReportCycle
  pub boundary : ReportBoundary
  pub key_findings : List KeyFinding

unfoldable pub to_cycle : {N : Type 0} → List (SymbolRef N) → ReportCycle
to_cycle members = record { size = length members; members = map to_symbol members }

-- `new Map(hotspots.map((hotspot) => [hotspot.id, hotspot.score]))`
unfoldable pub fan_in_of : {N : Type 0} → List (HotspotRef N) → JsMap Text N → JsMap Text N
fan_in_of [] fan_in = fan_in
fan_in_of (hotspot ∷ hotspots) fan_in =
    fan_in_of hotspots (JsMap.set fan_in hotspot.symbol.id hotspot.score)

module _ (n : Numbers) (texts : NumberTexts n.Number) (c : Collation)
    ⦃number_key : Key n.Number⦄ where
  open n use {Number}

  unfoldable pub gather : ReportSources Number → GatherOptions → GraphReportData Number
  gather sources options =
      let nodes = sources.nodes in
      let limit = options.limit in
      let edge_kinds = count_by c sources.edge_rows in
      let enriched = sources.cost_report.enriched in
      let measured = enriched && not sources.self_time.fell_back in
      let hottest = if measured then sources.self_time.hotspots else [] in
      let fan_in = fan_in_of sources.callers.hotspots [] in
      let communities = communities_of n c texts.show_number nodes in
      let files = count_distinct (map (λ (node : StoredNode Number). node.file_path) nodes) in
      let figures : ReportFigures Number = record {
        semantic =
            any (λ (e : KindCount). text_eq e.kind (codes "CALLS") && ltb 0 e.count) edge_kinds;
        enriched = enriched;
        total_self = sources.cost_report.total_self;
        symbol_count = length nodes;
        file_count = files;
        cycle_count = length sources.cycles;
        hubs_by_blast_radius = map to_ranked (take limit sources.blast.hotspots);
        hotspots = map to_ranked (take limit hottest);
        cost = map to_cost_node (take limit sources.cost_report.nodes);
        dead_exports = map to_symbol sources.dead_exports;
      } in
      record {
        generated_at = options.generated_at;
        project = options.project;
        output_folder = options.output_folder;
        coverage = sources.cost_report.coverage;
        limit = limit;
        totals = record {
          symbols = length nodes;
          files = files;
          relationships = sum_by (λ (e : KindCount). e.count) edge_kinds;
          communities = length communities;
          dead_exports = length sources.dead_exports;
          cycles = length sources.cycles;
        };
        figures = figures;
        verdict = verdict_of n texts figures;
        node_kinds = node_kind_counts c nodes;
        edge_kinds = edge_kinds;
        hubs_by_callers = map to_ranked (take limit sources.callers.hotspots);
        community_quality = read_community_quality n sources.clustering;
        communities = take limit communities;
        structure_vs_runtime = synthesize n sources.cost_report.nodes hottest fan_in;
        cycles = map to_cycle (take limit sources.cycles);
        boundary = boundary_of nodes;
        key_findings = findings_of n texts figures;
      }
