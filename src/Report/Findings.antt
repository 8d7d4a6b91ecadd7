-- ===== src/Report/Findings.antt =====
-- The key findings and the verdict of src/report/report_data.ts.
use Prim.Native.Nat.{Ordering}
use codespine.Common.{
  ℕ, suc, Bool, true, false, ◌&&◌, Option, none, some, List, [], ◌∷◌, ◌++◌, map, Text, codes,
  length, if◌then◌else◌, text_eq, filter, take, ltb, nat_beq, text_key, includes,
}
use codespine.Common.Strings.{show}
use codespine.Query.Types.{Numbers, greater}
use codespine.Report.{
  ReportSymbol, RankedSymbol, ReportCostNode, risk, opportunity, KeyFinding, ReportFigures,
  count_distinct,
}

-- The texts of numbers: `${x}`, `Math.round(x * 100)` and `(x * 100).toFixed(1)`.
pub record NumberTexts (N : Type 0) : Type 0 where
  pub show_number : N → Text
  pub round_percent : N → Text
  pub fixed_percent : N → Text

unfoldable pub symbol_key : ReportSymbol → Text
symbol_key symbol = symbol.file_path ++ b'#' ∷ symbol.name

unfoldable pub cleanup_finding : List ReportSymbol → Option KeyFinding
cleanup_finding [] = none
cleanup_finding (symbol ∷ symbols) =
    let dead = symbol ∷ symbols in
    let files = count_distinct (map (λ (s : ReportSymbol). s.file_path) dead) in
    some (record {
      title = codes "Dead code is safe to remove";
      detail =
          show (length dead)
          ++ codes " exported symbol(s) across "
          ++ show files
          ++ codes " file(s) are never referenced "
          ++ 8212 ∷ codes " confirm, then delete.";
      tone = opportunity;
      symbols = take 3 dead;
    })

module _ (n : Numbers) (texts : NumberTexts n.Number) where
  open n use {Number, of_ℕ, add, div}

  -- `cumulative / totalSelf >= RUNTIME_CONCENTRATION_THRESHOLD`
  unfoldable pub reaches : Number → Number → Bool
  reaches total cumulative = elim (n.compare (div cumulative total) (div (of_ℕ 1) (of_ℕ 2))) [
    | Ordering.lt ↦ false
    | _ ↦ true
  ]

  -- The loop over the hottest functions: their summed score, and how many they are.
  unfoldable pub concentrate : Number → Number → ℕ → List (RankedSymbol Number) → Number × ℕ
  concentrate total cumulative count [] = (cumulative, count)
  concentrate total cumulative count (hotspot ∷ hotspots) =
      let cumulative' = add cumulative hotspot.score in
      elim (reaches total cumulative') [
        | true ↦ (cumulative', suc count)
        | false ↦ concentrate total cumulative' (suc count) hotspots
      ]

  unfoldable pub concentration_detail : Number → Number × ℕ → Text
  concentration_detail total (cumulative, count) =
      codes "the "
      ++ show count
      ++ codes " hottest function(s) account for "
      ++ texts.round_percent (div cumulative total)
      ++ codes "% of measured self-time "
      ++ 8212 ∷ codes " start optimisation here."

  unfoldable pub runtime_concentration_finding : ReportFigures Number → Option KeyFinding
  runtime_concentration_finding report =
      let hottest = concentrate report.total_self n.zero 0 report.hotspots in
      if report.enriched
        && ltb 0 (length report.hotspots)
        && greater n.compare report.total_self n.zero
        && reaches report.total_self hottest.0
      then some (record {
        title = codes "Runtime is concentrated";
        detail = concentration_detail report.total_self hottest;
        tone = opportunity;
        symbols =
            map (λ (r : RankedSymbol Number). r.symbol)
              (take (if ltb hottest.1 3 then hottest.1 else 3) report.hotspots);
      })
      else none

  -- The most depended-upon symbols that are among the hottest.
  unfoldable pub risky_overlap : ReportFigures Number → List (RankedSymbol Number)
  risky_overlap report =
      let hot_keys = map (λ (r : RankedSymbol Number). symbol_key r.symbol) report.hotspots in
      filter (λ hub. includes hot_keys (symbol_key hub.symbol)) report.hubs_by_blast_radius

  unfoldable pub largest_radius : ReportFigures Number → RankedSymbol Number → KeyFinding
  largest_radius report top = record {
    title = codes "Highest blast radius";
    detail =
        codes "the largest reaches "
        ++ texts.show_number top.score
        ++ codes " symbol(s), "
        ++ (if ltb 0 report.symbol_count
            then texts.round_percent (div top.score (of_ℕ report.symbol_count))
            else codes "0")
        ++ codes "% of the codebase "
        ++ 8212 ∷ codes " change these carefully.";
    tone = risk;
    symbols = map (λ (r : RankedSymbol Number). r.symbol) (take 3 report.hubs_by_blast_radius);
  }

  unfoldable pub change_risk_finding : ReportFigures Number → Option KeyFinding
  change_risk_finding report = elim report.hubs_by_blast_radius [
    | [] ↦ none
    | top ∷ others ↦
        let overlap = risky_overlap report in
        if report.enriched && ltb 0 (length report.hotspots) && ltb 0 (length overlap)
        then some (record {
          title = codes "Change with the most care";
          detail =
              codes "high blast radius and among the hottest functions "
              ++ 8212 ∷ codes " the costliest places to introduce a regression.";
          tone = risk;
          symbols = map (λ (r : RankedSymbol Number). r.symbol) (take 3 overlap);
        })
        else some (largest_radius report top)
  ]

  -- Those of three findings that there are.
  unfoldable pub present : List (Option KeyFinding) → List KeyFinding
  present [] = []
  present (none ∷ findings) = present findings
  present (some finding ∷ findings) = finding ∷ present findings

  unfoldable pub findings_of : ReportFigures Number → List KeyFinding
  findings_of report = present (
      change_risk_finding report
      ∷ runtime_concentration_finding report
      ∷ cleanup_finding report.dead_exports
      ∷ [])

  -- ` (12.3% of inclusive cost)` for the cost of the first node with a name and a path.
  unfoldable pub share_of : ReportSymbol → List (ReportCostNode Number) → Text
  share_of symbol [] = []
  share_of symbol (node ∷ nodes) =
      elim (text_eq node.symbol.name symbol.name
        && text_eq node.symbol.file_path symbol.file_path) [
          | true ↦
              codes " (" ++ texts.fixed_percent node.share_of_total ++ codes "% of inclusive cost)"
          | false ↦ share_of symbol nodes
        ]

  -- The second sentence of the verdict, with the space before it.
  unfoldable pub hottest_sentence : ReportFigures Number → Text
  hottest_sentence report = elim report.hotspots [
    | [] ↦ []
    | hottest ∷ others ↦
        if report.enriched
        then codes " `"
          ++ hottest.symbol.name
          ++ codes "` is the hottest function"
          ++ share_of hottest.symbol report.cost
          ++ codes "."
        else []
  ]

  unfoldable pub verdict_of : ReportFigures Number → Text
  verdict_of report =
      let shape =
        if report.semantic
        then (if report.enriched then codes "semantic, enriched" else codes "semantic")
        else codes "structural" in
      let cycles =
        if nat_beq report.cycle_count 0
        then codes "acyclic"
        else show report.cycle_count ++ codes " call cycle(s)" in
      let dead =
        if ltb 0 (length report.dead_exports)
        then 32 ∷ show (length report.dead_exports) ++ codes " exported symbol(s) appear dead."
        else [] in
      show report.symbol_count
      ++ codes " symbols across "
      ++ show report.file_count
      ++ codes " files "
      ++ 8212 ∷ 32 ∷ shape
      ++ codes ", "
      ++ cycles
      ++ codes "."
      ++ hottest_sentence report
      ++ dead
