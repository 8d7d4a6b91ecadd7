-- ===== src/Cluster/Labeler/Shared.antt =====
-- The labels that communities share, and which communities have one.
use codespine.Common.{
  ℕ, ◌≡◌, refl, sym, ap, ◌∙◌, Bool, true, false, Option, none, some, List, [], ◌∷◌, ◌++◌, map, Text,
  Option-cases, inl, inr, arith, get_or, subst, if◌then◌else◌, ltb, nat_beq, any, text_key, nat_key,
}
use codespine.Common.JsMap
use codespine.Common.JsMap.{JsMap, values, UniqueKeys, set-UniqueKeys}
use codespine.Common.Rebuild.{
  tally_keys, rebuild, rebuild-map, rebuild-UniqueKeys, has-rebuild, occurrences,
  tally_keys-occurrences,
}
use codespine.Common.Maps.{map-ext}
use codespine.Query.Types.{Numbers}
use codespine.Cluster.Detector.{WeightedEdge}
use codespine.Cluster.Labeler.{
  LabelableNode, group_members, disambiguate, dedupe, rename_by_hub, rename_by_index, label,
  internal_degree, compose_label, hub_name,
}

-- A label with what a renaming makes of it, where more than one of some labels are the same.
abbrev pub renamed : (ℕ → Text → Text) → List Text → ℕ × Text → ℕ × Text
renamed rename labels (index, l) =
    (index, if ltb 1 (occurrences l labels) then rename index l else l)

pub disambiguate-map :
    (labels : JsMap ℕ Text) (rename : ℕ → Text → Text)
    → UniqueKeys labels
    → disambiguate labels rename ≡ map (renamed rename (values labels)) labels
unfolding disambiguate
disambiguate-map labels rename u =
    let ls = values labels in
    let rename_shared : ℕ → Text → Text =
      λ i l. if ltb 1 (get_or (JsMap.get (tally_keys ls []) l) 0) then rename i l else l in
    rebuild-map rename_shared labels u
    ∙ map-ext (λ x. (x.0, rename_shared x.0 x.1)) (renamed rename ls)
        (λ x.
          ap (λ k. (x.0, if ltb 1 k then rename x.0 x.1 else x.1)) (tally_keys-occurrences ls x.1))
        labels

-- Whether a node is in a community.
abbrev pub is_member : JsMap Text ℕ → ℕ → LabelableNode → Bool
is_member community_of index node = elim (JsMap.get community_of node.id) [
  | none ↦ false
  | some i ↦ nat_beq i index
]

module _ (community_of : JsMap Text ℕ) (index : ℕ) (node : LabelableNode) where
  is_member_unknown :
      JsMap.get community_of node.id ≡ none → is_member community_of index node ≡ false
  is_member_unknown e = rw (e, is_member) refl

  is_member_known :
      (i : ℕ)
      → JsMap.get community_of node.id ≡ some i
      → is_member community_of index node ≡ nat_beq i index
  is_member_known i e = rw (e, is_member) refl

module _ (community_of : JsMap Text ℕ) (node : LabelableNode) (nodes : List LabelableNode)
    (groups : JsMap ℕ (List LabelableNode)) where
  group_members_skip :
      JsMap.get community_of node.id ≡ none
      → group_members community_of (node ∷ nodes) groups ≡ group_members community_of nodes groups
  unfolding group_members
  group_members_skip e = rw (e, group_members) refl

  group_members_keep :
      (i : ℕ)
      → JsMap.get community_of node.id ≡ some i
      → group_members community_of (node ∷ nodes) groups
        ≡ group_members community_of nodes
            (JsMap.set groups i (get_or (JsMap.get groups i) [] ++ node ∷ []))
  unfolding group_members
  group_members_keep i e = rw (e, group_members) refl

group_members-has :
    (community_of : JsMap Text ℕ) (nodes : List LabelableNode)
    (groups : JsMap ℕ (List LabelableNode)) (index : ℕ)
    → JsMap.has (group_members community_of nodes groups) index
      ≡ (if JsMap.has groups index then true else any (is_member community_of index) nodes)
unfolding group_members
group_members-has community_of [] groups index = ground arith
group_members-has community_of (node ∷ nodes) groups index =
    let at : JsMap ℕ (List LabelableNode) → Bool = λ m. JsMap.has m index in
    elim (Option-cases (JsMap.get community_of node.id)) [
      | inl e ↦
          ap at (group_members_skip community_of node nodes groups e)
          ∙ group_members-has community_of nodes groups index
          ∙ ground (arith, is_member_unknown community_of index node e)
      | inr (i, e) ↦
          let ms = get_or (JsMap.get groups i) [] ++ node ∷ [] in
          ap at (group_members_keep community_of node nodes groups i e)
          ∙ group_members-has community_of nodes (JsMap.set groups i ms) index
          ∙ ground
              (arith, is_member_known community_of index node i e, JsMap.has-set groups i index ms)
    ]

group_members-UniqueKeys :
    (community_of : JsMap Text ℕ) (nodes : List LabelableNode)
    (groups : JsMap ℕ (List LabelableNode))
    → UniqueKeys groups
    → UniqueKeys (group_members community_of nodes groups)
unfolding group_members
group_members-UniqueKeys community_of [] groups u = u
group_members-UniqueKeys community_of (node ∷ nodes) groups u =
    elim (Option-cases (JsMap.get community_of node.id)) [
      | inl e ↦
          subst UniqueKeys (sym (group_members_skip community_of node nodes groups e))
            (group_members-UniqueKeys community_of nodes groups u)
      | inr (i, e) ↦
          subst UniqueKeys (sym (group_members_keep community_of node nodes groups i e))
            (group_members-UniqueKeys community_of nodes _ (set-UniqueKeys groups i _ u))
    ]

disambiguate-UniqueKeys :
    (labels : JsMap ℕ Text) (rename : ℕ → Text → Text) → UniqueKeys (disambiguate labels rename)
unfolding disambiguate
disambiguate-UniqueKeys labels rename = rebuild-UniqueKeys _ labels [] tt

disambiguate-has :
    (labels : JsMap ℕ Text) (rename : ℕ → Text → Text) (index : ℕ)
    → JsMap.has (disambiguate labels rename) index ≡ JsMap.has labels index
unfolding disambiguate JsMap.has
disambiguate-has labels rename index = has-rebuild _ labels [] index

-- The labels before dedupe: what compose_label says of each group.
module _ (n : Numbers) (community_of : JsMap Text ℕ) (nodes : List LabelableNode)
    (edges : List (WeightedEdge n.Number)) where
  abbrev pub base_labels : JsMap ℕ Text
  base_labels =
      let degree = internal_degree n community_of edges [] in
      map (λ e. (e.0, compose_label n e.0 e.1 (hub_name n e.1 degree)))
        (group_members community_of nodes [])

  -- label gives a label to exactly the communities that have a node among those it is given.
  label-has :
      (index : ℕ)
      → JsMap.has (label n community_of nodes edges) index
        ≡ any (is_member community_of index) nodes
  unfolding label dedupe JsMap.has
  label-has index =
      disambiguate-has _ rename_by_index index
      ∙ disambiguate-has _ _ index
      ∙ has-rebuild _ (group_members community_of nodes []) [] index
      ∙ group_members-has community_of nodes [] index

  -- The hubs of the groups.
  abbrev pub hubs : JsMap ℕ (Option Text)
  hubs =
      rebuild (λ index members. hub_name n members (internal_degree n community_of edges []))
        (group_members community_of nodes []) []

  -- The labels with what the renaming by the hub makes of those that are shared.
  abbrev pub labels_with_hubs : JsMap ℕ Text
  labels_with_hubs = map (renamed (rename_by_hub hubs) (values base_labels)) base_labels

  -- label keeps the label that composeLabel gives a community where no other community has it too;
  -- one that is shared gains the hub, where it is not in the label already, and one that is shared
  -- after that gains the index of the community. The communities keep their order.
  pub label-renamed :
      label n community_of nodes edges
      ≡ map (renamed rename_by_index (values labels_with_hubs)) labels_with_hubs
  unfolding label dedupe
  label-renamed =
      let groups = group_members community_of nodes [] in
      let degree = internal_degree n community_of edges [] in
      let f : ℕ → List LabelableNode → Text =
        λ index members. compose_label n index members (hub_name n members degree) in
      let keys : UniqueKeys groups = group_members-UniqueKeys community_of nodes [] tt in
      let base = rebuild-map f groups keys in
      let base_keys = rebuild-UniqueKeys f groups [] tt in
      let first = disambiguate-map (rebuild f groups []) (rename_by_hub hubs) base_keys in
      let first_keys = disambiguate-UniqueKeys (rebuild f groups []) (rename_by_hub hubs) in
      disambiguate-map _ rename_by_index first_keys
      ∙ ap (λ m. map (renamed rename_by_index (values m)) m)
          (first ∙ ap (λ m. map (renamed (rename_by_hub hubs) (values m)) m) base)
