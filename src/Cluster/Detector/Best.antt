-- ===== src/Cluster/Detector/Best.antt =====
-- The partition that `detect` chooses among the random starts.
use Prim.Native.Nat.{Ordering}
use mathlib.Core.Option
use codespine.Common.{
  ℕ, zero, suc, ◌+◌, ◌<◌, ◌≡◌, ◌≢◌, ◌⊎◌, refl, sym, ap, ◌∙◌, subst, Option, none, some, List, [],
  ◌∷◌, Text, inl, inr, Option-cases, arith, text_key, text_eq_iff, get_elem?, List-cases,
}
use codespine.Common.JsMap
use codespine.Common.JsMap.{JsMap}
use codespine.Query.Types.{Numbers}
use codespine.Cluster.Detector.{
  WeightedEdge, Indexed, CommunityOptions, CommunityResult, Leiden, index_nodes, try_starts,
  network_of, empty_result, assign, result_of, detect,
}
use codespine.Cluster.Detector.Index.{IsIndex, index_nodes-IsIndex}
use codespine.Cluster.Detector.Starts.{quality_at, IsBest, try_starts-IsBest}

no_element {ℓ} : {A : Type ℓ} (xs : List A) (i : ℕ) (x : A) → xs ≡ [] → get_elem? xs i ≢ some x
no_element [] i x e = ground arith
no_element (y ∷ xs) i x e = absurd (ground (arith, e))

module _ (n : Numbers) where
  open n use {Number, compare}

  assign-absent :
      (labels : ℕ → ℕ) (i : ℕ) (ids : List Text) (m : JsMap Text ℕ) (id : Text)
      → ((j : ℕ) → get_elem? ids j ≢ some id)
      → JsMap.get (assign n labels i ids m) id ≡ JsMap.get m id
  unfolding assign
  assign-absent labels i [] m id h = refl
  assign-absent labels i (x ∷ ids) m id h =
      assign-absent labels (suc i) ids (JsMap.set m x (labels i)) id (λ j. h (suc j))
      ∙ JsMap.get-set m x id (labels i)
      ∙ ground (arith, text_eq_iff x id, h 0)

  assign-present :
      (labels : ℕ → ℕ) (i : ℕ) (ids : List Text) (m : JsMap Text ℕ) (id : Text) (j : ℕ)
      → get_elem? ids j ≡ some id
      → ((k : ℕ) → get_elem? ids k ≡ some id → k ≡ j)
      → JsMap.get (assign n labels i ids m) id ≡ some (labels (i + j))
  unfolding assign
  assign-present labels i [] m id j e u = absurd (ground (arith, e))
  assign-present labels i (x ∷ ids) m id zero e u =
      assign-absent labels (suc i) ids (JsMap.set m x (labels i)) id
        (λ k h. absurd (omega (arith, u (suc k) h)))
      ∙ JsMap.get-set m x id (labels i)
      ∙ rw ((text_eq_iff x id).1 (ground (arith, e))) (ap (λ k. some (labels k)) (omega arith))
  assign-present labels i (x ∷ ids) m id (suc j) e u =
      assign-present labels (suc i) ids (JsMap.set m x (labels i)) id j e
        (λ k h. omega (arith, u (suc k) h))
      ∙ ap (λ k. some (labels k)) (omega arith)

  -- The label of an id is that of its index.
  assign-IsIndex :
      (labels : ℕ → ℕ) (s : Indexed) (id : Text)
      → IsIndex s
      → JsMap.get (assign n labels 0 s.ids []) id ≡ Option.map labels (JsMap.get s.index_of id)
  unfolding JsMap.get
  assign-IsIndex labels s id inv = elim (Option-cases (JsMap.get s.index_of id)) [
    | inl e ↦
        assign-absent labels 0 s.ids [] id (λ j h. ground (arith, (inv id j).1 h, e)) ∙ rw e refl
    | inr (j, e) ↦
        assign-present labels 0 s.ids [] id j ((inv id j).0 e)
          (λ k h. ground (arith, (inv id k).1 h, e))
        ∙ rw e (ap (λ k. some (labels k)) (omega arith))
  ]

  module _ (l : Leiden Number) (options : CommunityOptions Number) (edge : WeightedEdge Number)
      (others : List (WeightedEdge Number)) where
    abbrev pub ids_of_edges : List Text
    ids_of_edges = (index_nodes (edge ∷ others)).ids

    -- What the loop over the starts ends with.
    abbrev found : Option (l.Clustering × Number)
    found = try_starts n l (network_of n (edge ∷ others)) options options.random_starts 0 none

    found-IsBest : IsBest n l (network_of n (edge ∷ others)) options options.random_starts found
    found-IsBest =
        try_starts-IsBest n l (network_of n (edge ∷ others)) options options.random_starts 0
          options.random_starts none (omega arith) (λ i b. absurd (omega (arith, b)))

    detect_run : detect n l (edge ∷ others) options ≡ result_of n l ids_of_edges found
    unfolding detect
    detect_run =
        let index = index_nodes-IsIndex (edge ∷ others) in
        let present = index.1 edge.from ∙ rw ((text_eq_iff edge.from edge.from).1 refl) refl in
        let (i, e) = JsMap.get_present (index_nodes (edge ∷ others)).index_of edge.from present in
        let at = (index.0 edge.from i).0 e in
        elim (List-cases ids_of_edges) [
          | inl q ↦ absurd (no_element ids_of_edges i edge.from q at)
          | inr (id, rest, q) ↦ rw (q, detect) refl
        ]

  module _ (l : Leiden Number) (options : CommunityOptions Number) (edge : WeightedEdge Number)
      (others : List (WeightedEdge Number)) where
    -- A result is the partition of the best random start: its quality is that of one of the starts,
    -- no start has a greater one, and every node has the community that this start's clustering, its
    -- communities in order of size, gives to the node's index.
    abbrev IsBestPartition : CommunityResult Number → Type 0
    IsBestPartition result =
        let quality = quality_at n l (network_of n (edge ∷ others)) options in
        (start : ℕ) × ((start < options.random_starts)
          × ((quality start ≡ some result.quality)
              × (((i : ℕ)
                    → i < options.random_starts
                    → (q : Number) → quality i ≡ some q
                    → compare q result.quality ≢ Ordering.gt)
                  × ((id : Text)
                      → JsMap.get result.community_of id
                        ≡ Option.map
                            (l.cluster_of
                              (l.ordered (l.improved (network_of n (edge ∷ others)) options start)))
                            (JsMap.get (index_nodes (edge ∷ others)).index_of id)))))

    -- The best partition, or the empty result where no start has a quality above minus infinity.
    abbrev pub IsBestOrNone : CommunityResult Number → Type 0
    IsBestOrNone result =
        IsBestPartition result
        ⊎ (((i : ℕ)
              → i < options.random_starts
              → quality_at n l (network_of n (edge ∷ others)) options i ≡ none)
            × (result ≡ empty_result n))

    result_of-IsBestOrNone :
        (best : Option (l.Clustering × Number))
        → IsBest n l (network_of n (edge ∷ others)) options options.random_starts best
        → IsBestOrNone (result_of n l (ids_of_edges l options edge others) best)
    unfolding result_of
    result_of-IsBestOrNone none h = inr (h, refl)
    result_of-IsBestOrNone (some (c, q)) ((start, (below, (p, e))), best) = inl (
      start,
      (
        below,
        (
          e,
          (
            best,
            λ id.
                assign-IsIndex (l.cluster_of (l.ordered c)) (index_nodes (edge ∷ others)) id
                  (index_nodes-IsIndex (edge ∷ others)).0
                ∙ ap
                    (λ k.
                      Option.map (l.cluster_of (l.ordered k))
                        (JsMap.get (index_nodes (edge ∷ others)).index_of id))
                    p,
          ),
        ),
      ),
    )

    -- With at least one edge, detect answers with the partition of the best start: its quality is
    -- that of one of the starts, no start has a greater one, and every node has the community that
    -- this start's clustering, its communities in order of size, gives to the node's index; a node at
    -- the end of no edge has none. Or no start has a quality above minus infinity, and the answer is
    -- the empty result, without communities.
    pub detect-IsBestPartition : IsBestOrNone (detect n l (edge ∷ others) options)
    detect-IsBestPartition =
        subst IsBestOrNone (sym (detect_run l options edge others)) (
          result_of-IsBestOrNone (found l options edge others) (found-IsBest l options edge others))
