-- ===== src/Report/Types.antt =====
-- The types of src/report/report_data.ts.
use codespine.Common.{ℕ, Bool, List, Text}

pub record ReportSymbol : Type 0 where
  pub name : Text
  pub kind : Text
  pub file_path : Text
  pub start_line : ℕ

pub record RankedSymbol (N : Type 0) : Type 0 where
  pub symbol : ReportSymbol
  pub score : N

pub record ReportCostNode (N : Type 0) : Type 0 where
  pub symbol : ReportSymbol
  pub self_cost : N
  pub inclusive_cost : N
  pub share_of_total : N
  pub cyclic : Bool
  pub cycle_size : ℕ

pub record KindCount : Type 0 where
  pub kind : Text
  pub count : ℕ

pub record ReportCommunity : Type 0 where
  pub label : Text
  pub size : ℕ

pub record ReportCycle : Type 0 where
  pub size : ℕ
  pub members : List ReportSymbol

pub record ReportBoundary : Type 0 where
  pub endpoints : List ReportSymbol
  pub config_flags : List ReportSymbol
  pub external_apis : List ReportSymbol

pub record StructureVsRuntime : Type 0 where
  pub orchestrators : List ReportSymbol
  pub hidden_hotspots : List ReportSymbol
  pub aligned_core : List ReportSymbol

pub data FindingTone : Type 0 where
  risk opportunity info : FindingTone

pub record KeyFinding : Type 0 where
  pub title : Text
  pub detail : Text
  pub tone : FindingTone
  pub symbols : List ReportSymbol

-- What the findings and the verdict read of the data of a report.
pub record ReportFigures (N : Type 0) : Type 0 where
  pub semantic : Bool
  pub enriched : Bool
  pub total_self : N
  pub symbol_count : ℕ
  pub file_count : ℕ
  pub cycle_count : ℕ
  pub hubs_by_blast_radius : List (RankedSymbol N)
  pub hotspots : List (RankedSymbol N)
  pub cost : List (ReportCostNode N)
  pub dead_exports : List ReportSymbol
