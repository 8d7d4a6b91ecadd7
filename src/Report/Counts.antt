-- ===== src/Report/Counts.antt =====
-- The tables of counts.
use codespine.Common.{
  ℕ, ◌+◌, ◌≡◌, refl, sym, ap, ◌∙◌, some, List, [], ◌∷◌, map, Text, arith, All, length, sum_by,
  get_or, text_key,
}
use codespine.Common.Sort.{
  IsSorted, sort-IsSorted, sort-sum_by, sort-All, IsComparator, or_else-IsComparator,
  by_number-IsComparator, by_key-IsComparator, reverse-IsComparator,
}
use codespine.Common.JsMap
use codespine.Common.JsMap.{JsMap, values}
use codespine.Common.Rebuild.{
  tally_keys, tally_keys-occurrences, tally_keys-UniqueKeys, tally_keys-sum_by, occurrences,
  UniqueKeys-get,
}
use codespine.Query.Types.{Collation}
use codespine.Report.{KindCount, by_count, to_kind_count, count_by}

module _ (c : Collation) where
  by_count-IsComparator : IsComparator (by_count c)
  by_count-IsComparator =
      or_else-IsComparator
        (reverse-IsComparator (by_number-IsComparator (λ (k : KindCount). k.count)))
        (by_key-IsComparator (λ (k : KindCount). k.kind) c.locale_compare-IsComparator)

  sum_by-to_kind_count :
      (m : JsMap Text ℕ)
      → sum_by (λ k. k.count) (map (to_kind_count c) m) ≡ sum_by (λ i. i) (values m)
  unfolding to_kind_count
  sum_by-to_kind_count [] = refl
  sum_by-to_kind_count ((kind, count) ∷ m) = ap (λ k. count + k) (sum_by-to_kind_count m)

  -- Entries that a map of counts holds are the numbers of occurrences.
  to_kind_count-All :
      (kinds : List Text) (xs : JsMap Text ℕ)
      → All (λ (x : Text × ℕ). JsMap.get (tally_keys kinds []) x.0 ≡ some x.1) xs
      → All (λ k. k.count ≡ occurrences k.kind kinds) (map (to_kind_count c) xs)
  unfolding to_kind_count
  to_kind_count-All kinds [] h = tt
  to_kind_count-All kinds ((kind, count) ∷ xs) h = (
    ap (λ o. get_or o 0) (sym h.0) ∙ tally_keys-occurrences kinds kind,
    to_kind_count-All kinds xs h.1,
  )

  -- A table of counts has the largest first, equals by kind; each entry is the number of times that
  -- its kind occurs, and the entries add up to the number of values, so that none is lost.
  pub count_by-occurrences :
      (kinds : List Text)
      → IsSorted (by_count c) (count_by c kinds)
        × All (λ k. k.count ≡ occurrences k.kind kinds) (count_by c kinds)
        × (sum_by (λ k. k.count) (count_by c kinds) ≡ length kinds)
  unfolding count_by
  count_by-occurrences kinds =
      let counts = tally_keys kinds [] in
      let entries = map (to_kind_count c) counts in
      (
        sort-IsSorted (by_count c) by_count-IsComparator entries,
        sort-All (by_count c) (λ k. k.count ≡ occurrences k.kind kinds) entries
            (to_kind_count-All kinds counts
              (UniqueKeys-get counts (tally_keys-UniqueKeys kinds [] tt))),
        sort-sum_by (by_count c) (λ k. k.count) entries
            ∙ sum_by-to_kind_count counts
            ∙ tally_keys-sum_by kinds []
            ∙ omega arith,
      )
