-- ===== src/Cluster/Clusterer/Peak.antt =====
-- The samples of the hottest runtime edge, by which `readWeightedEdges` normalizes.
use Prim.Native.Nat.{Ordering}
use codespine.Common.{
  ◌≡◌, ◌≢◌, ◌⊎◌, refl, ◌∙◌, true, Option, List, [], ◌∷◌, Text, inl, inr, Bool-cases, arith, All, In,
  if◌then◌else◌,
}
use codespine.Schema.{Json}
use codespine.Query.Types.{Numbers, greater}
use codespine.Cluster.Clusterer.{KindRow, is_runtime, runtime_samples, max_runtime_samples}

module _ (n : Numbers) (parse_json : Text → Option (Json n.Number)) where
  open n use {Number, compare}

  abbrev samples_of : KindRow → Number
  samples_of row = runtime_samples n parse_json row.edge.metadata

  -- A bound of the samples of the runtime rows.
  abbrev pub Bounds : Number → List KindRow → Type 0
  Bounds max rows =
      All (λ row. is_runtime row.kind ≡ true → compare (samples_of row) max ≢ Ordering.gt) rows

  -- The samples of one of the runtime rows.
  abbrev pub IsSamples : Number → List KindRow → Type 0
  IsSamples max rows =
      (row : KindRow) × (In row rows × ((is_runtime row.kind ≡ true) × (max ≡ samples_of row)))

  -- The maximum so far, after a row.
  abbrev raised : Number → KindRow → Number
  raised max row =
      if is_runtime row.kind
      then (if greater compare (samples_of row) max then samples_of row else max)
      else max

  raised_bounds :
      (max : Number) (row : KindRow)
      → (compare max (raised max row) ≢ Ordering.gt)
        × (is_runtime row.kind ≡ true → compare (samples_of row) (raised max row) ≢ Ordering.gt)
  raised_bounds max row =
      let own = n.compare-IsComparator.flips max max in
      let ours = n.compare-IsComparator.flips (samples_of row) (samples_of row) in
      let other = n.compare-IsComparator.flips max (samples_of row) in
      (ground (arith, own, ours, other), ground (arith, own, ours, other))

  raised_cases :
      (max : Number) (row : KindRow)
      → (raised max row ≡ max) ⊎ ((is_runtime row.kind ≡ true) × (raised max row ≡ samples_of row))
  raised_cases max row = elim (Bool-cases (is_runtime row.kind)) [
    | inl t ↦ elim (Bool-cases (greater compare (samples_of row) max)) [
      | inl g ↦ inr (t, rw (t, g) refl)
      | inr g ↦ inl (rw (t, g) refl)
    ]
    | inr f ↦ inl (rw f refl)
  ]

  max-Bounds :
      (max : Number) (rows : List KindRow)
      → (compare max (max_runtime_samples n parse_json max rows) ≢ Ordering.gt)
        × Bounds (max_runtime_samples n parse_json max rows) rows
  unfolding max_runtime_samples
  max-Bounds max [] = (ground (arith, n.compare-IsComparator.flips max max), tt)
  max-Bounds max (row ∷ rows) =
      let m = raised max row in
      let result = max_runtime_samples n parse_json m rows in
      let (h, hs) = max-Bounds m rows in
      let (b, bs) = raised_bounds max row in
      (
        n.compare-IsComparator.trans max m result b h,
        (λ t. n.compare-IsComparator.trans (samples_of row) m result (bs t) h, hs),
      )

  max_attained :
      (max : Number) (rows : List KindRow)
      → (max_runtime_samples n parse_json max rows ≡ max)
        ⊎ IsSamples (max_runtime_samples n parse_json max rows) rows
  unfolding max_runtime_samples
  max_attained max [] = inl refl
  max_attained max (row ∷ rows) = elim (max_attained (raised max row) rows) [
    | inl e ↦ elim (raised_cases max row) [
      | inl q ↦ inl (e ∙ q)
      | inr (t, q) ↦ inr (row, (inl refl, (t, e ∙ q)))
    ]
    | inr (hot, (i, q)) ↦ inr (hot, (inr i, q))
  ]

  -- maxRuntimeSamples is the greatest number of samples that a runtime edge of the rows carries, or 0
  -- where none carries more: no runtime row has more, and it is the samples of one of them or 0.
  pub max_runtime_samples-Bounds :
      (rows : List KindRow)
      → Bounds (max_runtime_samples n parse_json n.zero rows) rows
        × ((max_runtime_samples n parse_json n.zero rows ≡ n.zero)
            ⊎ IsSamples (max_runtime_samples n parse_json n.zero rows) rows)
  max_runtime_samples-Bounds rows = ((max-Bounds n.zero rows).1, max_attained n.zero rows)
