-- ===== src/Tests/Campaign.antt =====
-- A worklist of a removal and two hotspots, and the components of a graph with a cycle.
use codespine.Common.{
  ℕ, ◌≡◌, ◌≤◌, refl, [], ◌∷◌, ◌++◌, none, some, false, arith, All, text_key, length,
}
use codespine.Common.Sort.{IsTop}
use codespine.Common.Int.{pos}
use codespine.Query.Types.{HotspotReport, callers}
use codespine.Query.Clamp.{finite, clamp, clamp-between}
use codespine.Query.Campaign.{
  GraphQueries, CampaignOptions, by_readiness, safe_removals, ranked_hotspots, plan,
}
use codespine.Query.Campaign.Worklist.{IsTagged, RanksAscend, limit_of, plan-IsTop, plan_tags}
use codespine.Query.Components.{
  Graph, Tarjan, strongly_connected_components, start_loop, work_loop, round, finish, follow, close,
  back_edge, lower, pop_component, discover, is_undiscovered,
}
use codespine.Query.Components.Ends.{strongly_connected_components_ends}
use codespine.Tests.Samples.{naturals, code_units, ref_to}

abbrev report : HotspotReport ℕ
report = record {
  metric = callers;
  requested = callers;
  enriched = false;
  fell_back = false;
  measured_only = false;
  hotspots =
      record { symbol = ref_to "b" 4; score = 9; metric = callers }
      ∷ record { symbol = ref_to "c" 7; score = 2; metric = callers }
      ∷ [];
}

abbrev queries : GraphQueries ℕ
queries = record {
  dead_exports = ref_to "a" 1 ∷ [];
  hotspots = λ options. report;
  blast_radius = λ id depth. ref_to "x" 1 ∷ [];
}

abbrev options : CampaignOptions
options = record { limit = some (finite (pos 2)); max_blast_radius = none; by = none }

plan-IsTop_example :
    IsTop
      (by_readiness naturals queries code_units)
      (limit_of naturals queries code_units options)
      (safe_removals naturals queries
        ++ ranked_hotspots naturals queries
            (queries.hotspots (record {
              by = options.by;
              limit = some (finite (pos (limit_of naturals queries code_units options)));
              measured_only = none;
            }))
            (plan naturals queries code_units options).max_blast_radius)
      (plan naturals queries code_units options).items
plan-IsTop_example = plan-IsTop naturals queries code_units options

plan_tags_example :
    All
      (IsTagged naturals queries code_units
        (plan naturals queries code_units options).max_blast_radius)
      (plan naturals queries code_units options).items
    × RanksAscend naturals queries code_units (plan naturals queries code_units options).items
    × (length (plan naturals queries code_units options).items ≤ 1000)
plan_tags_example = plan_tags naturals queries code_units options

clamp-between_example : (0 ≤ clamp (finite (pos 7)) 0 5) × (clamp (finite (pos 7)) 0 5 ≤ 5)
clamp-between_example = clamp-between (finite (pos 7)) 0 5 (ground arith)

-- 0 calls 1, 1 calls 2, 2 calls 1.
abbrev cyclic : Graph
cyclic = (1 ∷ []) ∷ (2 ∷ []) ∷ (1 ∷ []) ∷ []

strongly_connected_components_ends_example :
    (s : Tarjan) × ((strongly_connected_components cyclic ≡ some s)
      × ((s.work ≡ []) × (length s.index ≡ length cyclic)))
strongly_connected_components_ends_example = strongly_connected_components_ends cyclic

components_run :
    elim (strongly_connected_components cyclic) [ none ↦ [] | some s ↦ s.component_of ]
    ≡ some 1 ∷ some 0 ∷ some 0 ∷ []
unfolding strongly_connected_components start_loop work_loop round finish follow close back_edge
    lower pop_component discover is_undiscovered
components_run = refl
