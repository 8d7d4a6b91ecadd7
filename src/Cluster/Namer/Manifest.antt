-- ===== src/Cluster/Namer/Manifest.antt =====
-- The labels of the manifest after a renaming.
use codespine.Common.{
  ℕ, zero, suc, ◌≡◌, ◌≢◌, refl, sym, ap, ◌∙◌, false, Option, none, some, [], ◌∷◌, Text, codes, inl,
  inr, Bool-cases, arith, if◌then◌else◌, ltb, nat_beq, nat_beq_iff, text_key, text_eq, text_eq_iff,
  nat_key,
}
use codespine.Common.JsMap
use codespine.Common.JsMap.{JsMap, UniqueKeys}
use codespine.Schema.{Json, str, arr, Items, nil, cons, Metadata}
use codespine.Cluster.Namer.{
  length_items, item_at, set_item, set_labels, with_labels, update_manifest_labels,
}

not_same : (key : Text) → key ≢ codes "labels" → text_eq (codes "labels") key ≡ false
not_same key other = elim (Bool-cases (text_eq (codes "labels") key)) [
  | inl t ↦ absurd (other (sym ((text_eq_iff (codes "labels") key).0 t)))
  | inr f ↦ f
]

module _ {N : Type 0} where
  -- An item after a renaming: the new label of its index, where it has one.
  abbrev pub relabelled : Option Text → Option (Json N) → Option (Json N)
  relabelled label none = none
  relabelled none (some old) = some old
  relabelled (some text) (some old) = some (str text)

  abbrev replaced : Json N → Option (Json N) → Option (Json N)
  replaced v none = none
  replaced v (some old) = some v

  item_at-set_item :
      (items : Items N) (j : ℕ) (v : Json N) (i : ℕ)
      → item_at (set_item items j v) i
        ≡ (if nat_beq j i then replaced v (item_at items i) else item_at items i)
  item_at-set_item nil j v i = ground arith
  item_at-set_item (cons x xs) zero v zero = refl
  item_at-set_item (cons x xs) zero v (suc i) = ground arith
  item_at-set_item (cons x xs) (suc j) v zero = ground arith
  item_at-set_item (cons x xs) (suc j) v (suc i) = ground (arith, item_at-set_item xs j v i)

  set_item_out_of_bounds :
      (items : Items N) (j : ℕ) (v : Json N)
      → ltb j (length_items items) ≡ false
      → set_item items j v ≡ items
  set_item_out_of_bounds nil j v h = refl
  set_item_out_of_bounds (cons x xs) zero v h = absurd (ground (arith, h))
  set_item_out_of_bounds (cons x xs) (suc j) v h =
      ap (cons x) (set_item_out_of_bounds xs j v (ground (arith, h)))

  -- The test of the bounds only leaves out writes that change nothing.
  set_item_tested :
      (items : Items N) (j : ℕ) (v : Json N)
      → (if ltb j (length_items items) then set_item items j v else items) ≡ set_item items j v
  set_item_tested items j v = elim (Bool-cases (ltb j (length_items items))) [
    | inl t ↦ rw t refl
    | inr f ↦ rw f (sym (set_item_out_of_bounds items j v f))
  ]

  relabelled-replaced :
      (text : Text) (o : Option (Json N))
      → relabelled none (replaced (str text) o) ≡ relabelled (some text) o
  relabelled-replaced text none = refl
  relabelled-replaced text (some old) = refl

  relabelled-none : (o : Option (Json N)) → o ≡ relabelled none o
  relabelled-none none = refl
  relabelled-none (some old) = refl

  set_labels-item_at :
      (labels : JsMap ℕ Text) (items : Items N) (i : ℕ)
      → UniqueKeys labels
      → item_at (set_labels items labels) i ≡ relabelled (JsMap.get labels i) (item_at items i)
  unfolding set_labels JsMap.get
  set_labels-item_at [] items i u = relabelled-none (item_at items i)
  set_labels-item_at ((j, text) ∷ labels) items i u =
      set_labels-item_at labels
        (if ltb j (length_items items) then set_item items j (str text) else items) i u.1
      ∙ ap (λ k. relabelled (JsMap.get labels i) (item_at k i)) (set_item_tested items j (str text))
      ∙ ap (relabelled (JsMap.get labels i)) (item_at-set_item items j (str text) i)
      ∙ elim (Bool-cases (nat_beq j i)) [
        | inl t ↦
            let absent = ap (JsMap.get labels) (sym ((nat_beq_iff j i).0 t)) ∙ u.0 in
            rw (t, absent) (relabelled-replaced text (item_at items i))
        | inr f ↦ rw f refl
      ]

  -- Where the manifest has an array of labels and the request names no index twice,
  -- updateManifestLabels writes each requested label at its index, where the array has one; the other
  -- labels and every other key of the manifest stay, and no label is added.
  pub update_manifest_labels-item_at :
      (manifest : Metadata N) (labels : JsMap ℕ Text) (items : Items N)
      → UniqueKeys labels
      → JsMap.get manifest (codes "labels") ≡ some (arr items)
      → (updated : Metadata N) × (result : Items N) × (update_manifest_labels (some manifest) labels
          ≡ some updated)
        × (JsMap.get updated (codes "labels") ≡ some (arr result))
        × ((i : ℕ) → item_at result i ≡ relabelled (JsMap.get labels i) (item_at items i))
        × ((key : Text) → key ≢ codes "labels" → JsMap.get updated key ≡ JsMap.get manifest key)
  unfolding update_manifest_labels with_labels
  update_manifest_labels-item_at manifest labels items u e =
      let result = arr (set_labels items labels) in
      (
        JsMap.set manifest (codes "labels") result,
        set_labels items labels,
        ap (λ o. some (with_labels manifest labels o)) e,
        JsMap.get-set_self manifest (codes "labels") result,
        λ i. set_labels-item_at labels items i u,
        λ key other.
            JsMap.get-set manifest (codes "labels") key result ∙ rw (not_same key other) refl,
      )
