-- ===== src/Cluster/Labeler/Hub.antt =====
-- The hub of a community, and what its label depends on.
use Prim.Native.Nat.{Ordering}
use codespine.Common.{
  ℕ, ◌≡◌, ◌≢◌, refl, ap, some, List, [], ◌∷◌, Text, Bool-cases, List-cases, inl, inr, arith, get_or,
  map, length, text_key, nat_beq, text_eq_iff,
}
use codespine.Common.Sort.{
  sort, length-sort, IsComparator, or_else-IsComparator, by_key-IsComparator, reverse-IsComparator,
}
use codespine.Common.First.{IsFirst, sort-IsFirst}
use codespine.Common.Strings.{compare_text-IsComparator}
use codespine.Common.Rebuild.{tally_keys, tally_keys-occurrences}
use codespine.Common.JsMap
use codespine.Common.JsMap.{JsMap}
use codespine.Query.Types.{Numbers}
use codespine.Cluster.Labeler.{
  LabelableNode, display_name, by_degree, hub_name, compose_label, area_label, file_label,
  dominant_directory, by_dominance, directory_of, distinct,
}

not_empty {ℓ} : {A : Type ℓ} (cmp : A → A → Ordering) (x : A) (xs : List A) → sort cmp (x ∷ xs) ≢ []
not_empty cmp x xs e = omega (arith, length-sort cmp (x ∷ xs), ap (λ ys. length ys) e)

not_tallied : (key : Text) (keys : List Text) → sort by_dominance (tally_keys (key ∷ keys) []) ≢ []
unfolding JsMap.get
not_tallied key keys e =
    let counts = tally_keys (key ∷ keys) [] in
    let none_left = length-sort by_dominance counts in
    elim (List-cases counts) [
      | inl q ↦
          let zero_at = ap (λ (m : JsMap Text ℕ). get_or (JsMap.get m key) 0) q in
          ground
            (arith, zero_at, tally_keys-occurrences (key ∷ keys) key, (text_eq_iff key key).1 refl)
      | inr (x, xs, q) ↦ omega (
        arith,
        none_left,
        ap (λ (m : JsMap Text ℕ). length m) q,
        ap (λ (m : List (Text × ℕ)). length m) e,
      )
    ]

-- Members have a directory that most of them share.
dominant_directory-some :
    (member : LabelableNode) (others : List LabelableNode)
    → (d : Text × ℕ) × (dominant_directory (member ∷ others) ≡ some d)
unfolding dominant_directory
dominant_directory-some member others =
    let key = directory_of member.file_path in
    let paths = map (λ (node : LabelableNode). directory_of node.file_path) others in
    elim (List-cases (sort by_dominance (tally_keys (key ∷ paths) []))) [
      | inl e ↦ absurd (not_tallied key paths e)
      | inr (first, rest, e) ↦ (first, rw (e, dominant_directory) refl)
    ]

module _ (n : Numbers) (degree : JsMap Text n.Number) where
  open n use {Number, compare}

  by_degree-IsComparator : IsComparator (by_degree n degree)
  by_degree-IsComparator =
      or_else-IsComparator
        (by_key-IsComparator (λ (node : LabelableNode). get_or (JsMap.get degree node.id) n.zero)
          (reverse-IsComparator n.compare-IsComparator))
        (or_else-IsComparator
          (by_key-IsComparator (λ (node : LabelableNode). node.name) compare_text-IsComparator)
          (by_key-IsComparator (λ (node : LabelableNode). node.id) compare_text-IsComparator))

  hub_of :
      (members : List LabelableNode) (node : LabelableNode) (rest : List LabelableNode)
      → sort (by_degree n degree) members ≡ node ∷ rest
      → hub_name n members degree ≡ some (display_name node)
  unfolding hub_name
  hub_of members node rest e = rw (e, hub_name) refl

  -- A community with members always has a hub: the name that one of the members displays, and no
  -- member comes before that one, by internal degree downwards, then name, then id.
  pub hub_name-IsFirst :
      (member : LabelableNode) (others : List LabelableNode)
      → (node : LabelableNode) × ((hub_name n (member ∷ others) degree ≡ some (display_name node))
          × IsFirst (by_degree n degree) (member ∷ others) node)
  hub_name-IsFirst member others =
      let sorted = sort (by_degree n degree) (member ∷ others) in
      elim (List-cases sorted) [
        | inl e ↦ absurd (not_empty (by_degree n degree) member others e)
        | inr (node, rest, e) ↦ (
          node,
          (
            hub_of (member ∷ others) node rest e,
            sort-IsFirst (by_degree n degree) by_degree-IsComparator (member ∷ others) node rest e,
          ),
        )
      ]

module _ (n : Numbers) where
  open n use {Number}

  module _ (member : LabelableNode) (others : List LabelableNode) (hub : Text) where
    compose_label_files :
        (d : Text × ℕ)
        → dominant_directory (member ∷ others) ≡ some d
        → (i j : ℕ)
        → compose_label n i (member ∷ others) (some hub)
          ≡ compose_label n j (member ∷ others) (some hub)
    unfolding compose_label file_label area_label
    compose_label_files d e i j =
        let files = distinct (map (λ (m : LabelableNode). m.file_path) (member ∷ others)) [] in
        elim (Bool-cases (nat_beq (length files) 1)) [
          | inl t ↦ rw (t, compose_label) refl
          | inr f ↦ rw (f, e, compose_label) refl
        ]

  -- The label that composeLabel gives members with their hub does not depend on the index of their
  -- community, so that a run that numbers the communities anew gives the same label.
  pub compose_label_stable :
      (i j : ℕ) (member : LabelableNode) (others : List LabelableNode) (degree : JsMap Text Number)
      → compose_label n i (member ∷ others) (hub_name n (member ∷ others) degree)
        ≡ compose_label n j (member ∷ others) (hub_name n (member ∷ others) degree)
  compose_label_stable i j member others degree =
      let (node, (e, _)) = hub_name-IsFirst n degree member others in
      let (d, q) = dominant_directory-some member others in
      rw e (compose_label_files member others (display_name node) d q i j)
