-- ===== src/Cluster/Detector/Starts.antt =====
-- The loop of `detect` over the random starts.
use Prim.Native.Nat.{Ordering}
use codespine.Common.{
  ℕ, zero, suc, ◌+◌, ◌<◌, ◌≡◌, ◌≢◌, if◌then◌else◌, refl, subst, true, false, Option, none, some,
  inl, inr, Bool-cases, Option-cases, arith, text_key, ltb,
}
use codespine.Query.Types.{Numbers, greater}
use codespine.Cluster.Detector.{CommunityOptions, Network, Leiden, is_better, try_start, try_starts}

below_suc : (P : ℕ → Type 0) (k : ℕ) → P k → ((i : ℕ) → i < k → P i) → (i : ℕ) → i < suc k → P i
below_suc P k at below i h = elim (Bool-cases (ltb i k)) [
  | inl t ↦ below i (ground (arith, t))
  | inr f ↦ let e : k ≡ i = ground (arith, f, h) in subst P e at
]

module _ (n : Numbers) where
  open n use {Number, compare}

  compare_self : (q : Number) → compare q q ≢ Ordering.gt
  compare_self q = ground (arith, n.compare-IsComparator.flips q q)

  not_greater : (a b : Number) → greater compare a b ≡ false → compare a b ≢ Ordering.gt
  not_greater a b f = ground (arith, f)

  greater_not_less : (a b : Number) → greater compare a b ≡ true → compare b a ≢ Ordering.gt
  greater_not_less a b t = ground (arith, t, n.compare-IsComparator.flips a b)

module _ (n : Numbers) (l : Leiden n.Number) (network : Network n.Number)
    (options : CommunityOptions n.Number) where
  open n use {Number, compare}
  open l use {Clustering}

  -- The quality of the clustering that a start finds, where it is above minus infinity.
  abbrev pub quality_at : ℕ → Option Number
  quality_at start = l.calc_quality network options (l.improved network options start)

  -- A start that is not better than a quality.
  abbrev IsUpTo : Number → ℕ → Type 0
  IsUpTo q i = (q' : Number) → quality_at i ≡ some q' → compare q' q ≢ Ordering.gt

  -- The best of the starts below a bound: one of them, and none is better.
  abbrev pub IsBest : ℕ → Option (Clustering × Number) → Type 0
  IsBest bound none = (start : ℕ) → start < bound → quality_at start ≡ none
  IsBest bound (some (c, q)) =
      ((start : ℕ) × ((start < bound)
          × ((c ≡ l.improved network options start) × (quality_at start ≡ some q))))
      × ((start : ℕ) → start < bound → IsUpTo q start)

  try_start-IsBest :
      (start : ℕ) (best : Option (Clustering × Number))
      → IsBest start best
      → IsBest (suc start) (try_start n l network options start best)
  unfolding try_start is_better
  try_start-IsBest start best h = elim (Option-cases (quality_at start)) [
    | inl e ↦ rw (e, try_start) (without e best h)
    | inr (q, e) ↦ rw (e, try_start) (against q e best h)
  ]
    where
      none_up_to : (q : Number) (i : ℕ) → quality_at i ≡ none → IsUpTo q i
      none_up_to q i e q' e' = absurd (ground (arith, e, e'))

      itself : (q : Number) → quality_at start ≡ some q → IsUpTo q start
      itself q e q' e' =
          let p : q ≡ q' = ground (arith, e, e') in
          subst (λ x. compare x q ≢ Ordering.gt) p (compare_self n q)

      without :
          quality_at start ≡ none
          → (best : Option (Clustering × Number)) → IsBest start best
          → IsBest (suc start) best
      without e none h = below_suc (λ i. quality_at i ≡ none) start e h
      without e (some (c, q)) ((first, (b, p)), best) =
          ((first, (omega (arith, b), p)), below_suc (IsUpTo q) start (none_up_to q start e) best)

      against :
          (q' : Number)
          → quality_at start ≡ some q'
          → (best : Option (Clustering × Number)) → IsBest start best
          → IsBest (suc start) (
              if is_better n l network options q' best
              then some (l.improved network options start, q')
              else best)
      against q' e none h = (
        (start, (omega arith, (refl, e))),
        below_suc (IsUpTo q') start (itself q' e) (λ i b. none_up_to q' i (h i b)),
      )
      against q' e (some (c, q)) ((first, (b, p)), best) =
          elim (Bool-cases (greater compare q' q)) [
            | inl t ↦ rw t (
              (start, (omega arith, (refl, e))),
              below_suc (IsUpTo q') start (itself q' e) (λ i u x y.
                  n.compare-IsComparator.trans x q q' (best i u x y) (greater_not_less n q' q t)),
            )
            | inr f ↦ rw f (
              (first, (omega (arith, b), p)),
              below_suc (IsUpTo q) start
                  (λ x y.
                    let r : q' ≡ x = ground (arith, e, y) in
                    subst (λ z. compare z q ≢ Ordering.gt) r (not_greater n q' q f))
                  best,
            )
          ]

  pub try_starts-IsBest :
      (left start bound : ℕ) (best : Option (Clustering × Number))
      → left + start ≡ bound
      → IsBest start best
      → IsBest bound (try_starts n l network options left start best)
  unfolding try_starts
  try_starts-IsBest zero start bound best e h = subst (λ k. IsBest k best) (omega (arith, e)) h
  try_starts-IsBest (suc left) start bound best e h =
      try_starts-IsBest left (suc start) bound (try_start n l network options start best)
        (omega (arith, e)) (try_start-IsBest start best h)
