-- ===== src/Query/Hotspots/Ranking.antt =====
-- What `hotspots` promises: the metric that it ranks by, and the top of that ranking.
use codespine.Common.{
  ◌≡◌, refl, true, false, none, List, [], ◌∷◌, map, arith, All, filter, get_or, Bool-cases, inl,
  inr,
}
use codespine.Common.Sort.{
  IsTop, top, top-IsTop, IsComparator, or_else-IsComparator, by_number-IsComparator,
  by_key-IsComparator, reverse-IsComparator, top-All,
}
use codespine.Schema.{StoredNode}
use codespine.Query.Types.{Numbers, Collation, greater, CallEdge, callers}
use codespine.Query.Clamp.{clamp_limit}
use codespine.Query.Hotspots.{
  HotspotOptions, is_runtime_metric, Entry, score_nodes, scored, candidates_of, to_hotspot,
  by_score, hotspots,
}

module _ (n : Numbers) (c : Collation) where
  open n use {Number, zero}

  by_score-IsComparator : IsComparator (by_score n c)
  by_score-IsComparator =
      or_else-IsComparator
        (by_key-IsComparator (λ (e : Entry Number). e.score)
          (reverse-IsComparator n.compare-IsComparator))
        (or_else-IsComparator
          (by_key-IsComparator (λ (e : Entry Number). e.node.file_path)
            c.locale_compare-IsComparator)
          (by_number-IsComparator (λ (e : Entry Number). e.node.start_line)))

  -- An entry that scores above zero.
  abbrev pub IsPositive : Entry Number → Type 0
  IsPositive e = greater n.compare e.score zero ≡ true

  filter-All :
      (xs : List (Entry Number)) → All IsPositive (filter (λ e. greater n.compare e.score zero) xs)
  filter-All [] = tt
  filter-All (x ∷ xs) = elim (Bool-cases (greater n.compare x.score zero)) [
    | inl p ↦ rw p (p, filter-All xs)
    | inr q ↦ rw q (filter-All xs)
  ]

  module _ (nodes : List (StoredNode Number)) (edges : List (CallEdge Number))
      (options : HotspotOptions) where
    -- The report lists, in order, the first `limit` of the candidates that score above zero by the
    -- report's metric: sorted by score downwards, then path, then line; what is left out could stand
    -- behind what is listed, and is left out only if `limit` entries are listed; every listed score
    -- is above zero. The candidates are the measured nodes where the report says so, else all.
    pub hotspots-IsTop :
        (entries : List (Entry Number)) × ((hotspots n c nodes edges options).hotspots
          ≡ map (to_hotspot n (hotspots n c nodes edges options).metric) entries)
        × IsTop
            (by_score n c)
            (clamp_limit options.limit)
            (scored n
              (score_nodes n nodes edges (hotspots n c nodes edges options).metric)
              (candidates_of n (hotspots n c nodes edges options).measured_only nodes))
            entries
        × All IsPositive entries
    unfolding hotspots
    hotspots-IsTop =
        let metric = (hotspots n c nodes edges options).metric in
        let candidates =
          scored n (score_nodes n nodes edges metric)
            (candidates_of n (get_or options.measured_only false) nodes) in
        let limit = clamp_limit options.limit in
        (
          top (by_score n c) limit candidates,
          refl,
          top-IsTop limit candidates by_score-IsComparator,
          top-All IsPositive (by_score n c) limit candidates (filter-All _),
        )

    -- A runtime metric is used only on an enriched graph. Without a fallback the metric is the
    -- requested one; a fallback happens exactly where a runtime metric is requested of a graph that
    -- is not enriched, and then ranks by `callers`. With no metric given there is never a fallback.
    pub hotspots_metric :
        (is_runtime_metric (hotspots n c nodes edges options).metric ≡ true
          → (hotspots n c nodes edges options).enriched ≡ true)
        × ((hotspots n c nodes edges options).fell_back ≡ false
            → (hotspots n c nodes edges options).metric
              ≡ (hotspots n c nodes edges options).requested)
        × ((hotspots n c nodes edges options).fell_back ≡ true
            → ((hotspots n c nodes edges options).metric ≡ callers)
              × (is_runtime_metric (hotspots n c nodes edges options).requested ≡ true)
              × ((hotspots n c nodes edges options).enriched ≡ false))
        × (options.by ≡ none → (hotspots n c nodes edges options).fell_back ≡ false)
    unfolding hotspots
    hotspots_metric = (λ h. ground arith, λ h. ground arith, λ h. ground arith, λ h. ground arith)
