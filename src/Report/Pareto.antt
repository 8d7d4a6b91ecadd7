-- ===== src/Report/Pareto.antt =====
-- The fewest of the hottest functions that carry half of the runtime.
use codespine.Common.{
  ℕ, zero, suc, ◌+◌, ◌≤◌, ◌<◌, ◌≡◌, ◌⊎◌, refl, ap, ◌∙◌, true, false, List, [], ◌∷◌, inl, inr,
  Bool-cases, arith, length, take,
}
use codespine.Query.Types.{Numbers}
use codespine.Report.{RankedSymbol}
use codespine.Report.Findings.{NumberTexts, reaches, concentrate}

module _ (n : Numbers) (texts : NumberTexts n.Number) (total : n.Number) where
  open n use {Number, add}

  -- The scores of some functions, added up in their order.
  abbrev pub summed : Number → List (RankedSymbol Number) → Number
  summed start [] = start
  summed start (hotspot ∷ hotspots) = summed (add start hotspot.score) hotspots

  -- A sum and the number of functions that are summed: of all prefixes, none shorter reaches the
  -- threshold, and this one does or is all there is.
  abbrev pub IsShortest : Number → ℕ → List (RankedSymbol Number) → Number × ℕ → Type 0
  IsShortest start before hotspots result =
      (count : ℕ) × (result ≡ (summed start (take count hotspots), count + before))
      × (count ≤ length hotspots)
      × ((k : ℕ)
          → 0 < k
          → k < count
          → reaches n texts total (summed start (take k hotspots)) ≡ false)
      × ((reaches n texts total (summed start (take count hotspots)) ≡ true)
          ⊎ (count ≡ length hotspots))

  module _ (start : Number) (before : ℕ) (hotspot : RankedSymbol Number)
      (hotspots : List (RankedSymbol Number)) where
    concentrate_stop :
        reaches n texts total (add start hotspot.score) ≡ true
        → concentrate n texts total start before (hotspot ∷ hotspots)
          ≡ (add start hotspot.score, suc before)
    unfolding concentrate
    concentrate_stop t = rw (t, concentrate) refl

    concentrate_continue :
        reaches n texts total (add start hotspot.score) ≡ false
        → concentrate n texts total start before (hotspot ∷ hotspots)
          ≡ concentrate n texts total (add start hotspot.score) (suc before) hotspots
    unfolding concentrate
    concentrate_continue f = rw (f, concentrate) refl

  -- The prefixes of a list that starts with a function that does not reach the threshold.
  shorter_prefixes :
      (start : Number) (hotspot : RankedSymbol Number) (hotspots : List (RankedSymbol Number))
      (count : ℕ)
      → reaches n texts total (add start hotspot.score) ≡ false
      → ((k : ℕ)
          → 0 < k
          → k < count
          → reaches n texts total (summed (add start hotspot.score) (take k hotspots)) ≡ false)
      → (k : ℕ) → 0 < k
      → k < suc count
      → reaches n texts total (summed start (take k (hotspot ∷ hotspots))) ≡ false
  shorter_prefixes start hotspot hotspots count f h zero pos below = absurd (omega (arith, pos))
  shorter_prefixes start hotspot hotspots count f h (suc zero) pos below = f
  shorter_prefixes start hotspot hotspots count f h (suc (suc k)) pos below =
      h (suc k) (omega arith) (omega (arith, below))

  -- The loop over the hottest functions ends with the scores that it has summed and their number: no
  -- shorter prefix of the functions reaches the threshold, and this one does, or is all of them.
  pub concentrate-IsShortest :
      (start : Number) (before : ℕ) (hotspots : List (RankedSymbol Number))
      → IsShortest start before hotspots (concentrate n texts total start before hotspots)
  unfolding concentrate
  concentrate-IsShortest start before [] = (
    0,
    ap (λ k. (start, k)) (omega arith),
    omega arith,
    λ k pos below. absurd (omega (arith, pos, below)),
    inr refl,
  )
  concentrate-IsShortest start before (hotspot ∷ hotspots) =
      let sum = add start hotspot.score in
      elim (Bool-cases (reaches n texts total sum)) [
        | inl t ↦ (
          1,
          concentrate_stop start before hotspot hotspots t ∙ ap (λ k. (sum, k)) (omega arith),
          omega arith,
          λ k pos below. absurd (omega (arith, pos, below)),
          inl t,
        )
        | inr f ↦
            let (count, e, bound, shorter, end) =
              concentrate-IsShortest sum (suc before) hotspots in
            (
              suc count,
              concentrate_continue start before hotspot hotspots f
                  ∙ e
                  ∙ ap (λ k. (summed sum (take count hotspots), k)) (omega arith),
              omega (arith, bound),
              shorter_prefixes start hotspot hotspots count f shorter,
              elim end [ inl t ↦ inl t | inr q ↦ inr (ap suc q) ],
            )
      ]
