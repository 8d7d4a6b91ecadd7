-- ===== src/Tests/Query.antt =====
-- Queries on a call graph with a cycle.
use codespine.Common.{
  ℕ, ◌≡◌, ◌≢◌, ◌≤◌, ◌↔◌, refl, List, [], ◌∷◌, Text, codes, none, some, true, false, All, includes,
  text_key, text_eq, length, map,
}
use codespine.Common.Sort.{IsTop}
use codespine.Common.JsMap
use codespine.Schema.{StoredNode}
use codespine.Query.Types.{CallEdge, self_time, callers}
use codespine.Query.Clamp.{
  finite, clamp_depth, clamp_depth-bounds, clamp_limit, clamp_limit-bounds, kuzu_max_rel_bound,
}
use codespine.Common.Int.{pos}
use codespine.Query.Radius.{Callers, index_callers, reachable_count}
use codespine.Query.Radius.Correct.{Reaches, Distinct, reachable_count_correct}
use codespine.Query.Hotspots.{
  HotspotOptions, Entry, hotspots, scored, score_nodes, candidates_of, to_hotspot, by_score,
  is_runtime_metric,
}
use codespine.Query.Hotspots.Ranking.{IsPositive, hotspots-IsTop, hotspots_metric}
use codespine.Tests.Samples.{naturals, code_units, stored, measured, call}

-- a calls b, b calls c, c calls b.
abbrev edges : List (CallEdge ℕ)
edges = call "a" "b" 2 ∷ call "b" "c" 1 ∷ call "c" "b" 5 ∷ []

abbrev nodes : List (StoredNode ℕ)
nodes = stored "a" 1 (measured 3) ∷ stored "b" 4 [] ∷ stored "c" 7 (measured 8) ∷ []

abbrev callers_index : Callers
callers_index = (codes "b", codes "a" ∷ codes "c" ∷ []) ∷ (codes "c", codes "b" ∷ []) ∷ []

index_run : index_callers [] edges ≡ callers_index
unfolding index_callers JsMap.get JsMap.set text_eq
index_run = refl

reachable_run : reachable_count (codes "b") callers_index ≡ some 2
unfolding reachable_count JsMap.get includes text_eq
reachable_run = refl

reachable_count_correct_example :
    (r : List Text) × (reachable_count (codes "b") callers_index ≡ some (length r))
    × Distinct r
    × ((a : Text) → (includes r a ≡ true) ↔ (Reaches callers_index (codes "b") a × (a ≢ codes "b")))
reachable_count_correct_example = reachable_count_correct (codes "b") callers_index

abbrev options : HotspotOptions
options = record { by = some self_time; limit = some (finite (pos 1)); measured_only = none }

hotspots-IsTop_example :
    (entries : List (Entry ℕ)) × ((hotspots naturals code_units nodes edges options).hotspots
      ≡ map (to_hotspot naturals (hotspots naturals code_units nodes edges options).metric) entries)
    × IsTop
        (by_score naturals code_units)
        (clamp_limit options.limit)
        (scored naturals
          (score_nodes naturals nodes edges
            (hotspots naturals code_units nodes edges options).metric)
          (candidates_of naturals
            (hotspots naturals code_units nodes edges options).measured_only
            nodes))
        entries
    × All (IsPositive naturals code_units) entries
hotspots-IsTop_example = hotspots-IsTop naturals code_units nodes edges options

hotspots_metric_example :
    (is_runtime_metric (hotspots naturals code_units nodes edges options).metric ≡ true
      → (hotspots naturals code_units nodes edges options).enriched ≡ true)
    × ((hotspots naturals code_units nodes edges options).fell_back ≡ false
        → (hotspots naturals code_units nodes edges options).metric
          ≡ (hotspots naturals code_units nodes edges options).requested)
    × ((hotspots naturals code_units nodes edges options).fell_back ≡ true
        → ((hotspots naturals code_units nodes edges options).metric ≡ callers)
          × (is_runtime_metric (hotspots naturals code_units nodes edges options).requested ≡ true)
          × ((hotspots naturals code_units nodes edges options).enriched ≡ false))
    × (options.by ≡ none → (hotspots naturals code_units nodes edges options).fell_back ≡ false)
hotspots_metric_example = hotspots_metric naturals code_units nodes edges options

clamp_depth-bounds_example :
    (1 ≤ clamp_depth (finite (pos 99)))
    × (clamp_depth (finite (pos 99)) ≤ kuzu_max_rel_bound)
    × ((n : ℕ)
        → finite (pos 99) ≡ finite (pos n)
        → 1 ≤ n
        → n ≤ kuzu_max_rel_bound
        → clamp_depth (finite (pos 99)) ≡ n)
clamp_depth-bounds_example = clamp_depth-bounds (finite (pos 99))

clamp_limit-bounds_example :
    (1 ≤ clamp_limit none)
    × (clamp_limit none ≤ 1000)
    × ((n : ℕ) → none ≡ some (finite (pos n)) → 1 ≤ n → n ≤ 1000 → clamp_limit none ≡ n)
clamp_limit-bounds_example = clamp_limit-bounds none
