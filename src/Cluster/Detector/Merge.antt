-- ===== src/Cluster/Detector/Merge.antt =====
-- One edge in the map of the pairs of indices, and the lists that the map is unpacked into.
use codespine.Common.{
  ℕ, ◌<◌, ◌≡◌, refl, sym, ap, ◌∙◌, Bool, true, false, ◌&&◌, Option, none, some, List, [], ◌∷◌, Text,
  if◌then◌else◌, inl, inr, Bool-cases, arith, All, nat_beq, ltb, get_or, text_key, text_eq,
  text_eq_iff,
}
use codespine.Common.Digits.{pair_key, key_low, key_high, key_low-pair_key, key_high-pair_key}
use codespine.Common.JsMap
use codespine.Common.JsMap.{JsMap}
use codespine.Query.Types.{Numbers}
use codespine.Cluster.Detector.{WeightedEdge, merge_pair, unpack}

abbrev pub is_index : Option ℕ → ℕ → Bool
is_index none i = false
is_index (some j) i = nat_beq j i

-- The weight that three lists of sources, targets and weights give a pair of indices.
abbrev pub listed {ℓ} : {N : Type ℓ} → List (Option ℕ) → List (Option ℕ) → List N → ℕ → ℕ → Option N
listed [] ts ws a b = none
listed (s ∷ ss) [] ws a b = none
listed (s ∷ ss) (t ∷ ts) [] a b = none
listed (s ∷ ss) (t ∷ ts) (w ∷ ws) a b =
    if is_index s a && is_index t b then some w else listed ss ts ws a b

pub pair_key-injective :
    (a b c d : ℕ) → text_eq (pair_key a b) (pair_key c d) ≡ (nat_beq a c && nat_beq b d)
pair_key-injective a b c d =
    let e = text_eq_iff (pair_key a b) (pair_key c d) in
    let same : a ≡ c → b ≡ d → pair_key a b ≡ pair_key c d = λ p q. rw (p, q) refl in
    elim (Bool-cases (text_eq (pair_key a b) (pair_key c d))) [
      | inl t ↦
          let q = e.0 t in
          let low = sym (key_low-pair_key a b) ∙ ap key_low q ∙ key_low-pair_key c d in
          let high = sym (key_high-pair_key a b) ∙ ap key_high q ∙ key_high-pair_key c d in
          ground (arith, t, low, high)
      | inr f ↦ ground (arith, f, same, e)
    ]

module _ (n : Numbers) where
  open n use {Number, add}

  -- The keys of the map are pairs in order.
  abbrev pub ArePairs : JsMap Text Number → Type 0
  ArePairs m = All (λ (e : Text × Number). (a : ℕ) × (b : ℕ) × ((a < b) × (e.0 ≡ pair_key a b))) m

  -- Whether an edge joins two indices, in either direction.
  abbrev pub joins : JsMap Text ℕ → ℕ → ℕ → WeightedEdge Number → Bool
  joins index_of a b edge =
      let from = JsMap.get index_of edge.from in
      let to = JsMap.get index_of edge.to in
      if is_index from a && is_index to b then true else is_index from b && is_index to a

  -- The weights of the edges between two indices, added up in their order; `none` without an edge.
  abbrev pub weight_between :
      JsMap Text ℕ → ℕ → ℕ → List (WeightedEdge Number) → Option Number → Option Number
  weight_between index_of a b [] total = total
  weight_between index_of a b (edge ∷ edges) total =
      let total' =
        if joins index_of a b edge then some (add (get_or total n.zero) edge.weight) else total in
      weight_between index_of a b edges total'

  pub listed-unpack :
      (m : JsMap Text Number) (a b : ℕ)
      → ArePairs m
      → listed (unpack n m).sources (unpack n m).targets (unpack n m).weights a b
        ≡ JsMap.get m (pair_key a b)
  unfolding unpack JsMap.get
  listed-unpack [] a b h = refl
  listed-unpack ((key, w) ∷ m) a b ((c, d, (l, e)), h) =
      rw
        (
          e,
          key_low-pair_key c d,
          key_high-pair_key c d,
          pair_key-injective c d a b,
          listed-unpack m a b h,
        )
        refl

  -- The write of `merge_pair`, at indices in order.
  abbrev pub add_pair : ℕ → ℕ → Number → JsMap Text Number → JsMap Text Number
  add_pair a b w m = JsMap.set m (pair_key a b) (add (get_or (JsMap.get m (pair_key a b)) n.zero) w)

  add_pair-get :
      (a b : ℕ) (w : Number) (m : JsMap Text Number) (c d : ℕ)
      → JsMap.get (add_pair a b w m) (pair_key c d) ≡ (
          if nat_beq a c && nat_beq b d
          then some (add (get_or (JsMap.get m (pair_key c d)) n.zero) w)
          else JsMap.get m (pair_key c d))
  add_pair-get a b w m c d =
      JsMap.get-set m (pair_key a b) (pair_key c d) _
      ∙ rw (pair_key-injective a b c d) (elim (Bool-cases (nat_beq a c && nat_beq b d)) [
        | inl t ↦
            let p : a ≡ c = ground (arith, t) in
            let q : b ≡ d = ground (arith, t) in rw t (rw (p, q) refl)
        | inr f ↦ rw f refl
      ])

  module _ (a b : ℕ) (w : Number) (m : JsMap Text Number) where
    merge_pair_equal : nat_beq a b ≡ true → merge_pair n a b w m ≡ m
    unfolding merge_pair
    merge_pair_equal e = rw (e, merge_pair) refl

    merge_pair_below :
        nat_beq a b ≡ false → ltb a b ≡ true → merge_pair n a b w m ≡ add_pair a b w m
    unfolding merge_pair
    merge_pair_below e t = rw (e, t, merge_pair) refl

    merge_pair_above :
        nat_beq a b ≡ false → ltb a b ≡ false → merge_pair n a b w m ≡ add_pair b a w m
    unfolding merge_pair
    merge_pair_above e f = rw (e, f, merge_pair) refl

  pub merge_pair-get :
      (a b : ℕ) (w : Number) (m : JsMap Text Number) (c d : ℕ)
      → c < d
      → JsMap.get (merge_pair n a b w m) (pair_key c d) ≡ (
          if (if nat_beq a c && nat_beq b d then true else nat_beq a d && nat_beq b c)
          then some (add (get_or (JsMap.get m (pair_key c d)) n.zero) w)
          else JsMap.get m (pair_key c d))
  merge_pair-get a b w m c d l =
      let at : JsMap Text Number → Option Number = λ k. JsMap.get k (pair_key c d) in
      elim (Bool-cases (nat_beq a b)) [
        | inl e ↦ ap at (merge_pair_equal a b w m e) ∙ ground (arith, e, l)
        | inr e ↦ elim (Bool-cases (ltb a b)) [
          | inl t ↦
              ap at (merge_pair_below a b w m e t)
              ∙ add_pair-get a b w m c d
              ∙ ground (arith, e, t, l)
          | inr f ↦
              ap at (merge_pair_above a b w m e f)
              ∙ add_pair-get b a w m c d
              ∙ ground (arith, e, f, l)
        ]
      ]

  set-ArePairs :
      (m : JsMap Text Number) (a b : ℕ) (w : Number)
      → a < b
      → ArePairs m
      → ArePairs (JsMap.set m (pair_key a b) w)
  unfolding JsMap.set
  set-ArePairs [] a b w l h = ((a, b, (l, refl)), tt)
  set-ArePairs ((key, v) ∷ m) a b w l h = elim (Bool-cases (text_eq key (pair_key a b))) [
    | inl t ↦ rw t h
    | inr f ↦ rw f (h.0, set-ArePairs m a b w l h.1)
  ]

  pub merge_pair-ArePairs :
      (a b : ℕ) (w : Number) (m : JsMap Text Number) → ArePairs m → ArePairs (merge_pair n a b w m)
  merge_pair-ArePairs a b w m h = elim (Bool-cases (nat_beq a b)) [
    | inl e ↦ rw (merge_pair_equal a b w m e) h
    | inr e ↦ elim (Bool-cases (ltb a b)) [
      | inl t ↦ rw (merge_pair_below a b w m e t) (set-ArePairs m a b _ (ground (arith, t)) h)
      | inr f ↦ rw (merge_pair_above a b w m e f) (set-ArePairs m b a _ (ground (arith, e, f)) h)
    ]
  ]
