-- ===== src/Cluster/Detector/Pairs.antt =====
-- What `symmetrize` makes of the directed edges.
use codespine.Common.{
  ◌⊎◌, ℕ, ◌<◌, ◌≡◌, refl, ap, ◌∙◌, false, Option, none, some, List, [], ◌∷◌, Text, if◌then◌else◌,
  inl, inr, Bool-cases, Option-cases, arith, ltb, get_or, text_key,
}
use codespine.Common.Digits.{pair_key}
use codespine.Common.JsMap
use codespine.Common.JsMap.{JsMap}
use codespine.Query.Types.{Numbers}
use codespine.Cluster.Detector.Merge.{
  listed, pair_key-injective, ArePairs, joins, weight_between, listed-unpack, merge_pair-get,
  merge_pair-ArePairs,
}
use codespine.Cluster.Detector.{WeightedEdge, merge_pair, merge_edge_pair, merge_pairs, symmetrize}

module _ (n : Numbers) where
  open n use {Number, add}

  module _ (index_of : JsMap Text ℕ) (edge : WeightedEdge Number) (m : JsMap Text Number) where
    merge_edge_pair_unknown :
        (JsMap.get index_of edge.from ≡ none) ⊎ (JsMap.get index_of edge.to ≡ none)
        → merge_edge_pair n index_of edge m ≡ m
    unfolding merge_edge_pair
    merge_edge_pair_unknown (inl e) = rw (e, merge_edge_pair) refl
    merge_edge_pair_unknown (inr e) = elim (Option-cases (JsMap.get index_of edge.from)) [
      | inl f ↦ rw (f, merge_edge_pair) refl
      | inr (a, f) ↦ rw (f, e, merge_edge_pair) refl
    ]

    merge_edge_pair_known :
        (a b : ℕ)
        → JsMap.get index_of edge.from ≡ some a
        → JsMap.get index_of edge.to ≡ some b
        → merge_edge_pair n index_of edge m ≡ merge_pair n a b edge.weight m
    unfolding merge_edge_pair
    merge_edge_pair_known a b e f = rw (e, f, merge_edge_pair) refl

    merge_edge_pair-get :
        (c d : ℕ)
        → c < d
        → JsMap.get (merge_edge_pair n index_of edge m) (pair_key c d) ≡ (
            if joins n index_of c d edge
            then some (add (get_or (JsMap.get m (pair_key c d)) n.zero) edge.weight)
            else JsMap.get m (pair_key c d))
    merge_edge_pair-get c d l =
        let at : JsMap Text Number → Option Number = λ k. JsMap.get k (pair_key c d) in
        elim (Option-cases (JsMap.get index_of edge.from)) [
          | inl e ↦ ap at (merge_edge_pair_unknown (inl e)) ∙ rw e (ground arith)
          | inr (a, e) ↦ elim (Option-cases (JsMap.get index_of edge.to)) [
            | inl f ↦ ap at (merge_edge_pair_unknown (inr f)) ∙ rw (e, f) (ground arith)
            | inr (b, f) ↦
                ap at (merge_edge_pair_known a b e f)
                ∙ merge_pair-get n a b edge.weight m c d l
                ∙ rw (e, f) (ground arith)
          ]
        ]

    merge_edge_pair-ArePairs : ArePairs n m → ArePairs n (merge_edge_pair n index_of edge m)
    merge_edge_pair-ArePairs h = elim (Option-cases (JsMap.get index_of edge.from)) [
      | inl e ↦ rw (merge_edge_pair_unknown (inl e)) h
      | inr (a, e) ↦ elim (Option-cases (JsMap.get index_of edge.to)) [
        | inl f ↦ rw (merge_edge_pair_unknown (inr f)) h
        | inr (b, f) ↦
            rw (merge_edge_pair_known a b e f) (merge_pair-ArePairs n a b edge.weight m h)
      ]
    ]

  module _ (index_of : JsMap Text ℕ) where
    merge_pairs-get :
        (edges : List (WeightedEdge Number)) (m : JsMap Text Number) (c d : ℕ)
        → c < d
        → JsMap.get (merge_pairs n index_of edges m) (pair_key c d)
          ≡ weight_between n index_of c d edges (JsMap.get m (pair_key c d))
    unfolding merge_pairs
    merge_pairs-get [] m c d l = refl
    merge_pairs-get (edge ∷ edges) m c d l =
        merge_pairs-get edges (merge_edge_pair n index_of edge m) c d l
        ∙ ap (weight_between n index_of c d edges) (merge_edge_pair-get index_of edge m c d l)

    merge_pairs-ArePairs :
        (edges : List (WeightedEdge Number)) (m : JsMap Text Number)
        → ArePairs n m
        → ArePairs n (merge_pairs n index_of edges m)
    unfolding merge_pairs
    merge_pairs-ArePairs [] m h = h
    merge_pairs-ArePairs (edge ∷ edges) m h =
        merge_pairs-ArePairs edges (merge_edge_pair n index_of edge m)
          (merge_edge_pair-ArePairs index_of edge m h)

  get-ArePairs :
      (m : JsMap Text Number) (a b : ℕ)
      → ArePairs n m
      → ltb a b ≡ false
      → JsMap.get m (pair_key a b) ≡ none
  unfolding JsMap.get
  get-ArePairs [] a b h f = refl
  get-ArePairs ((key, w) ∷ m) a b ((c, d, (l, e)), h) f =
      rw (e, pair_key-injective c d a b) (ground (arith, l, f, get-ArePairs m a b h f))

  -- symmetrize lists a pair of indices at most in ascending order, and gives it the weights of all
  -- edges between the two, in either direction, added up in their order; a pair without an edge, a
  -- self-loop and an edge with an unknown end add nothing.
  pub symmetrize-weights :
      (edges : List (WeightedEdge Number)) (index_of : JsMap Text ℕ) (a b : ℕ)
      → listed
          (symmetrize n edges index_of).sources
          (symmetrize n edges index_of).targets
          (symmetrize n edges index_of).weights
          a
          b
        ≡ (if ltb a b then weight_between n index_of a b edges none else none)
  unfolding symmetrize JsMap.get
  symmetrize-weights edges index_of a b =
      let m = merge_pairs n index_of edges [] in
      let h = merge_pairs-ArePairs index_of edges [] tt in
      listed-unpack n m a b h ∙ elim (Bool-cases (ltb a b)) [
        | inl t ↦ rw t (merge_pairs-get index_of edges [] a b (ground (arith, t)))
        | inr f ↦ rw f (get-ArePairs m a b h f)
      ]
