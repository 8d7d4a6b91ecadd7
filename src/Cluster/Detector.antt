-- ===== src/Cluster/Detector.antt =====
-- src/cluster/community_detector.ts. What `networkanalysis-ts` does is the record `Leiden`.
pub mod Index
pub mod Merge
pub mod Pairs
mod Starts
pub mod Best
use codespine.Common.{
  ℕ, zero, suc, ◌+◌, ◌<◌, Bool, true, Option, none, some, List, [], ◌∷◌, ◌++◌, Text, length, get_or,
  if◌then◌else◌, nat_beq, ltb, text_key,
}
use codespine.Common.Digits.{pair_key, key_low, key_high}
use codespine.Common.JsMap
use codespine.Common.JsMap.{JsMap}
use codespine.Query.Types.{Numbers, greater}

module _ (N : Type 0) where
  pub record WeightedEdge : Type 0 where
    pub from : Text
    pub to : Text
    pub weight : N

  pub record CommunityOptions : Type 0 where
    pub resolution : N
    pub iterations : ℕ
    pub random_starts : ℕ

  pub record CommunityResult : Type 0 where
    pub community_of : JsMap Text ℕ
    pub community_count : ℕ
    pub quality : N
    pub sizes : List ℕ

  -- The sources, the targets and the weights of the undirected edges; `none` is `NaN`.
  pub record Undirected : Type 0 where
    pub sources : List (Option ℕ)
    pub targets : List (Option ℕ)
    pub weights : List N

  -- The options of `new Network`, whose nodes all weigh the same.
  pub record Network : Type 0 where
    pub n_nodes : ℕ
    pub edges : Undirected

  -- The library: the clustering that `improveClustering` makes of a fresh one at a random start, its
  -- quality, `none` where that is `NaN` or minus infinity, `orderClustersByNNodes`, and what a clustering answers: `getClusters()[i]`, which is one
  -- of the clusters, their number and their sizes.
  pub record Leiden : Type 1 where
    pub Clustering : Type 0
    pub improved : Network → CommunityOptions → ℕ → Clustering
    pub calc_quality : Network → CommunityOptions → Clustering → Option N
    pub ordered : Clustering → Clustering
    pub cluster_of : Clustering → ℕ → ℕ
    pub n_clusters : Clustering → ℕ
    pub n_nodes_per_cluster : Clustering → List ℕ
    pub cluster_of-bound : (c : Clustering) (i : ℕ) → cluster_of c i < n_clusters c

-- The ids in the order of their first occurrence, and the index of each.
pub record Indexed : Type 0 where
  pub ids : List Text
  pub index_of : JsMap Text ℕ

unfoldable pub index_node : Text → Indexed → Indexed
index_node id s =
    if JsMap.has s.index_of id
    then s
    else record { ids = s.ids ++ id ∷ []; index_of = JsMap.set s.index_of id (length s.ids) }

unfoldable pub index_loop : {N : Type 0} → Indexed → List (WeightedEdge N) → Indexed
index_loop s [] = s
index_loop s (edge ∷ edges) = index_loop (index_node edge.to (index_node edge.from s)) edges

unfoldable pub index_nodes : {N : Type 0} → List (WeightedEdge N) → Indexed
index_nodes edges = index_loop (record { ids = []; index_of = [] }) edges

module _ (n : Numbers) where
  open n use {Number, add, compare}

  -- One round of the first loop of `symmetrize`, at the indices of the ends.
  unfoldable pub merge_pair : ℕ → ℕ → Number → JsMap Text Number → JsMap Text Number
  merge_pair a b weight merged =
      if nat_beq a b
      then merged
      else let low = if ltb a b then a else b in
        let high = if ltb a b then b else a in
        let key = pair_key low high in
        JsMap.set merged key (add (get_or (JsMap.get merged key) n.zero) weight)

  unfoldable pub merge_edge_pair :
      JsMap Text ℕ → WeightedEdge Number → JsMap Text Number → JsMap Text Number
  merge_edge_pair index_of edge merged = elim (JsMap.get index_of edge.from) [
    | none ↦ merged
    | some a ↦ elim (JsMap.get index_of edge.to) [
      | none ↦ merged
      | some b ↦ merge_pair a b edge.weight merged
    ]
  ]

  unfoldable pub merge_pairs :
      JsMap Text ℕ → List (WeightedEdge Number) → JsMap Text Number → JsMap Text Number
  merge_pairs index_of [] merged = merged
  merge_pairs index_of (edge ∷ edges) merged =
      merge_pairs index_of edges (merge_edge_pair index_of edge merged)

  -- The second loop: the keys are taken apart again.
  unfoldable pub unpack : JsMap Text Number → Undirected Number
  unpack [] = record { sources = []; targets = []; weights = [] }
  unpack ((key, weight) ∷ merged) =
      let rest = unpack merged in
      record {
        sources = key_low key ∷ rest.sources;
        targets = key_high key ∷ rest.targets;
        weights = weight ∷ rest.weights;
      }

  unfoldable pub symmetrize : List (WeightedEdge Number) → JsMap Text ℕ → Undirected Number
  symmetrize edges index_of = unpack (merge_pairs index_of edges [])

  abbrev pub empty_result : CommunityResult Number
  empty_result = record { community_of = []; community_count = 0; quality = n.zero; sizes = [] }

  module _ (l : Leiden Number) (network : Network Number) (options : CommunityOptions Number) where
    open l use {Clustering}

    -- `quality > bestQuality`, which starts at minus infinity, for a quality above that.
    unfoldable pub is_better : Number → Option (Clustering × Number) → Bool
    is_better quality none = true
    is_better quality (some (best, best_quality)) = greater compare quality best_quality

    unfoldable pub try_start : ℕ → Option (Clustering × Number) → Option (Clustering × Number)
    try_start start best =
        let clustering = l.improved network options start in
        elim (l.calc_quality network options clustering) [
          | none ↦ best
          | some quality ↦ if is_better quality best then some (clustering, quality) else best
        ]

    -- The loop over the random starts: those left, and the next one.
    unfoldable pub try_starts : ℕ → ℕ → Option (Clustering × Number) → Option (Clustering × Number)
    try_starts zero start best = best
    try_starts (suc left) start best = try_starts left (suc start) (try_start start best)

  -- `ids.forEach((id, i) => communityOf.set(id, labels[i]))`
  unfoldable pub assign : (ℕ → ℕ) → ℕ → List Text → JsMap Text ℕ → JsMap Text ℕ
  assign labels i [] m = m
  assign labels i (id ∷ ids) m = assign labels (suc i) ids (JsMap.set m id (labels i))

  unfoldable pub network_of : List (WeightedEdge Number) → Network Number
  network_of edges =
      let indexed = index_nodes edges in
      record { n_nodes = length indexed.ids; edges = symmetrize edges indexed.index_of }

  unfoldable pub result_of :
      (l : Leiden Number) → List Text → Option (l.Clustering × Number) → CommunityResult Number
  result_of l ids none = empty_result
  result_of l ids (some (clustering, quality)) =
      let best = l.ordered clustering in
      record {
        community_of = assign (l.cluster_of best) 0 ids [];
        community_count = l.n_clusters best;
        quality = quality;
        sizes = l.n_nodes_per_cluster best;
      }

  unfoldable pub detect :
      Leiden Number → List (WeightedEdge Number) → CommunityOptions Number → CommunityResult Number
  detect l edges options = elim (index_nodes edges).ids [
    | [] ↦ empty_result
    | id ∷ ids ↦
        result_of l (id ∷ ids)
          (try_starts l (network_of edges) options options.random_starts 0 none)
  ]
