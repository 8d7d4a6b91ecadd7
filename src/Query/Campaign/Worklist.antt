-- ===== src/Query/Campaign/Worklist.antt =====
-- What a campaign's worklist promises.
use codespine.Common.Sort.{top-IsSorted, length-top_le}
use Prim.Native.Nat.{Ordering}
use codespine.Common.{
  ℕ, ◌≤◌, ◌<◌, ◌≡◌, ◌≢◌, ◌⊎◌, refl, none, some, List, [], ◌∷◌, ◌++◌, arith, All, All-append, length,
  get_or, leb, Bool-cases, inl, inr, All-map,
}
use codespine.Common.Sort.{
  IsTop, IsSorted, top-IsTop, top-All, IsComparator, or_else-IsComparator, by_number-IsComparator,
  by_key-IsComparator, reverse-IsComparator,
}
use codespine.Common.Int.{pos}
use codespine.Query.Types.{Numbers, Collation, HotspotRef}
use codespine.Query.Clamp.{finite, clamp, clamp-between}
use codespine.Query.Campaign.{
  auto_applicable, needs_workload, manual, dead_export, hotspot, CampaignItem, CampaignOptions,
  GraphQueries, default_limit, max_limit, blast_radius_depth, readiness_rank, safe_removals,
  hotspot_item, ranked_hotspots, by_readiness, plan,
}

module _ (n : Numbers) (q : GraphQueries n.Number) (c : Collation) where
  open n use {Number}

  by_readiness-IsComparator : IsComparator (by_readiness n q c)
  by_readiness-IsComparator =
      or_else-IsComparator
        (by_number-IsComparator (λ (i : CampaignItem Number). readiness_rank i.readiness))
        (or_else-IsComparator
          (by_key-IsComparator (λ (i : CampaignItem Number). i.score)
            (reverse-IsComparator n.compare-IsComparator))
          (or_else-IsComparator
            (by_key-IsComparator (λ (i : CampaignItem Number). i.symbol.file_path)
              c.locale_compare-IsComparator)
            (by_number-IsComparator (λ (i : CampaignItem Number). i.symbol.start_line))))

  -- The tag that an item deserves: a dead export may be removed at once; a hotspot carries the size
  -- of its impact set, and needs a workload up to the ceiling, a human above it.
  abbrev pub IsTagged : ℕ → CampaignItem Number → Type 0
  IsTagged ceiling i =
      ((i.candidate ≡ dead_export) × (i.readiness ≡ auto_applicable) × (i.blast_radius ≡ 0))
      ⊎ ((i.candidate ≡ hotspot)
          × (i.blast_radius ≡ length (q.blast_radius i.symbol.id (finite (pos blast_radius_depth))))
          × (((i.readiness ≡ needs_workload) × (i.blast_radius ≤ ceiling))
              ⊎ ((i.readiness ≡ manual) × (ceiling < i.blast_radius))))

  hotspot_item-IsTagged :
      (ceiling : ℕ) (h : HotspotRef Number) → IsTagged ceiling (hotspot_item n q ceiling h)
  unfolding hotspot_item
  hotspot_item-IsTagged ceiling h =
      let radius = length (q.blast_radius h.symbol.id (finite (pos blast_radius_depth))) in
      inr (
        refl,
        refl,
        elim (Bool-cases (leb radius ceiling)) [
          | inl p ↦ inl (rw p, ground arith)
          | inr r ↦ inr (rw r, ground arith)
        ],
      )

  removals-IsTagged : (ceiling : ℕ) → All (IsTagged ceiling) (safe_removals n q)
  unfolding safe_removals
  removals-IsTagged ceiling =
      All-map (IsTagged ceiling) _ (λ ref. inl (refl, refl, refl)) q.dead_exports

  -- The ranks of a list never fall.
  abbrev pub RanksAscend : List (CampaignItem Number) → Type 0
  RanksAscend [] = Unit
  RanksAscend (i ∷ is) =
      All (λ j. readiness_rank i.readiness ≤ readiness_rank j.readiness) is × RanksAscend is

  ranks_of_All :
      (i : CampaignItem Number) (js : List (CampaignItem Number))
      → All (λ j. by_readiness n q c i j ≢ Ordering.gt) js
      → All (λ j. readiness_rank i.readiness ≤ readiness_rank j.readiness) js
  ranks_of_All i [] h = tt
  ranks_of_All i (j ∷ js) h = (ground (arith, h.0), ranks_of_All i js h.1)

  IsSorted-RanksAscend :
      (is : List (CampaignItem Number)) → IsSorted (by_readiness n q c) is → RanksAscend is
  IsSorted-RanksAscend [] h = tt
  IsSorted-RanksAscend (i ∷ is) h = (ranks_of_All i is h.0, IsSorted-RanksAscend is h.1)

  module _ (options : CampaignOptions) where
    abbrev pub limit_of : ℕ
    limit_of = clamp (get_or options.limit (finite (pos default_limit))) 1 max_limit

    -- The worklist is, in order, the first `limit` (20 if not given, clamped to 1 to 1000) of the
    -- dead exports and the hotspots that the queries report.
    pub plan-IsTop :
        IsTop
          (by_readiness n q c)
          limit_of
          (safe_removals n q
            ++ ranked_hotspots n q
                (q.hotspots (record {
                  by = options.by;
                  limit = some (finite (pos limit_of));
                  measured_only = none;
                }))
                (plan n q c options).max_blast_radius)
          (plan n q c options).items
    unfolding plan
    plan-IsTop = top-IsTop limit_of _ by_readiness-IsComparator

    -- Every item of a worklist is tagged as it deserves: a dead export is auto-applicable with an
    -- impact set of 0; a hotspot carries the size of its impact set to depth 10 and is
    -- `needs-workload` if that is within the report's ceiling, `manual` if it is above. The safe
    -- removals come first and the manual items last, and there are at most 1000 items.
    pub plan_tags :
        All (IsTagged (plan n q c options).max_blast_radius) (plan n q c options).items
        × RanksAscend (plan n q c options).items
        × (length (plan n q c options).items ≤ 1000)
    unfolding plan
    plan_tags =
        let cmp = by_readiness n q c in
        let ceiling = (plan n q c options).max_blast_radius in
        let report = q.hotspots (record {
          by = options.by;
          limit = some (finite (pos limit_of));
          measured_only = none;
        }) in
        let items = safe_removals n q ++ ranked_hotspots n q report ceiling in
        (
          top-All (IsTagged ceiling) cmp limit_of items (
              All-append (IsTagged ceiling) (safe_removals n q) (ranked_hotspots n q report ceiling)
                (removals-IsTagged ceiling)
                (unfold ranked_hotspots in
                  All-map (IsTagged ceiling) (hotspot_item n q ceiling)
                    (hotspot_item-IsTagged ceiling) report.hotspots)),
          IsSorted-RanksAscend _ (top-IsSorted limit_of items by_readiness-IsComparator),
          omega (
            arith,
            length-top_le cmp limit_of items,
            clamp-between (get_or options.limit (finite (pos default_limit))) 1 max_limit,
          ),
        )
