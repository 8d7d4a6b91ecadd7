-- ===== src/Query/Campaign.antt =====
-- src/query/campaign_planner.ts: the worklist of a campaign, over the answers of the graph queries.
pub mod Worklist
use Prim.Native.Nat.{compare, Ordering}
use codespine.Common.{
  ℕ, Bool, true, false, Option, none, some, List, [], ◌∷◌, ◌++◌, map, Text, get_or, if◌then◌else◌,
  leb, length,
}
use codespine.Common.Sort.{or_else, top}
use codespine.Common.Int.{pos}
use codespine.Query.Types.{Numbers, Collation, SymbolRef, HotspotMetric, HotspotRef, HotspotReport}
use codespine.Query.Clamp.{JsNumber, finite, clamp}
use codespine.Query.Hotspots.{HotspotOptions}

pub data Readiness : Type 0 where
  auto_applicable needs_workload manual : Readiness

pub data Candidate : Type 0 where
  dead_export hotspot : Candidate

pub record CampaignItem (N : Type 0) : Type 0 where
  pub symbol : SymbolRef N
  pub candidate : Candidate
  pub readiness : Readiness
  pub score : N
  pub metric : Option HotspotMetric
  pub blast_radius : ℕ

pub record CampaignReport (N : Type 0) : Type 0 where
  pub enriched : Bool
  pub metric : HotspotMetric
  pub fell_back : Bool
  pub max_blast_radius : ℕ
  pub items : List (CampaignItem N)

pub record CampaignOptions : Type 0 where
  pub limit : Option JsNumber
  pub max_blast_radius : Option JsNumber
  pub by : Option HotspotMetric

-- The queries of `GraphQuery` that a plan asks.
pub record GraphQueries (N : Type 0) : Type 0 where
  pub dead_exports : List (SymbolRef N)
  pub hotspots : HotspotOptions → HotspotReport N
  pub blast_radius : Text → JsNumber → List (SymbolRef N)

-- DEFAULT_LIMIT, MAX_LIMIT, DEFAULT_MAX_BLAST_RADIUS, BLAST_RADIUS_DEPTH
abbrev pub default_limit : ℕ
default_limit = 20

abbrev pub max_limit : ℕ
max_limit = 1000

abbrev pub default_max_blast_radius : ℕ
default_max_blast_radius = 25

abbrev pub blast_radius_depth : ℕ
blast_radius_depth = 10

-- READINESS_RANK
abbrev pub readiness_rank : Readiness → ℕ
readiness_rank auto_applicable = 0
readiness_rank needs_workload = 1
readiness_rank manual = 2

module _ (n : Numbers) (q : GraphQueries n.Number) where
  open n use {Number, zero}

  unfoldable pub safe_removals : List (CampaignItem Number)
  safe_removals =
      map
        (λ ref. record {
          symbol = ref;
          candidate = dead_export;
          readiness = auto_applicable;
          score = zero;
          metric = none;
          blast_radius = 0;
        })
        q.dead_exports

  unfoldable pub hotspot_item : ℕ → HotspotRef Number → CampaignItem Number
  hotspot_item max_blast_radius h =
      let radius = length (q.blast_radius h.symbol.id (finite (pos blast_radius_depth))) in
      record {
        symbol = h.symbol;
        candidate = hotspot;
        readiness = if leb radius max_blast_radius then needs_workload else manual;
        score = h.score;
        metric = some h.metric;
        blast_radius = radius;
      }

  unfoldable pub ranked_hotspots : HotspotReport Number → ℕ → List (CampaignItem Number)
  unfolding hotspot_item
  ranked_hotspots report max_blast_radius = map (hotspot_item max_blast_radius) report.hotspots

  module _ (collation : Collation) where
    -- The order of the worklist: readiness, then the score downwards, then the path, then the line.
    abbrev pub by_readiness : CampaignItem Number → CampaignItem Number → Ordering
    by_readiness a b = or_else (compare (readiness_rank a.readiness) (readiness_rank b.readiness)) (
        or_else (n.compare b.score a.score) (
          or_else (collation.locale_compare a.symbol.file_path b.symbol.file_path)
            (compare a.symbol.start_line b.symbol.start_line)))

    unfoldable pub plan : CampaignOptions → CampaignReport Number
    unfolding safe_removals ranked_hotspots
    plan options =
        let limit = clamp (get_or options.limit (finite (pos default_limit))) 1 max_limit in
        let max_blast_radius =
          clamp (get_or options.max_blast_radius (finite (pos default_max_blast_radius))) 0
            max_limit in
        let report =
          q.hotspots
            (record { by = options.by; limit = some (finite (pos limit)); measured_only = none }) in
        record {
          enriched = report.enriched;
          metric = report.metric;
          fell_back = report.fell_back;
          max_blast_radius = max_blast_radius;
          items = top by_readiness limit (safe_removals ++ ranked_hotspots report max_blast_radius);
        }
