-- ===== src/Cluster/Clusterer/Assigned.antt =====
-- What `cluster` leaves in the nodes of the database.
use codespine.Common.{
  codes, get_or, ◌++◌, ℕ, ◌≡◌, refl, sym, subst, ap, ◌∙◌, false, Option, none, some, List, [], ◌∷◌,
  map, Text, inl, inr, Option-cases, arith, All, text_eq, text_eq_iff, text_key, nat_key,
}
use codespine.Common.JsMap
use codespine.Common.JsMap.{JsMap}
use codespine.Common.Maps.{map-id_of, map-ext, map-map, map-All}
use codespine.Common.Strings.{show}
use codespine.Schema.{num, str, Json, EdgeKind, StoredNode}
use codespine.Query.Types.{Numbers}
use codespine.Store.{Database, overwrite, write_node_metadata}
use codespine.Store.Nodes.{UniqueIds}
use codespine.Cluster.Detector.{CommunityOptions, Leiden, detect}
use codespine.Cluster.Labeler.{ordinal, label}
use codespine.Cluster.Clusterer.{
  label_at, community_key, community_label_key, KindRow, labelable_of, read_weighted_edges,
  with_community, community_updates, cluster,
}

text_eq_sym : (s t : Text) → text_eq s t ≡ false → text_eq t s ≡ false
text_eq_sym s t f = ground (arith, f, text_eq_iff s t, text_eq_iff t s)

All_both {ℓ} :
    {A : Type ℓ} (P Q R : A → Type 0)
    → ((x : A) → P x → Q x → R x)
    → (xs : List A) → All P xs
    → All Q xs
    → All R xs
All_both P Q R h [] p q = tt
All_both P Q R h (x ∷ xs) p q = (h x p.0 q.0, All_both P Q R h xs p.1 q.1)

module _ (n : Numbers) (community_of : JsMap Text ℕ) (labels : JsMap ℕ Text) where
  open n use {Number}

  -- A node with its community, where it has one.
  abbrev pub assigned : StoredNode Number → StoredNode Number
  assigned node = elim (JsMap.get community_of node.id) [
    | none ↦ node
    | some index ↦ record node {
      metadata =
          JsMap.set (JsMap.set node.metadata community_key (num (n.of_ℕ index))) community_label_key
            (str (get_or (JsMap.get labels index) (codes "community " ++ show index)));
    }
  ]

  -- What the update of one node makes of another.
  abbrev step : StoredNode Number → StoredNode Number → StoredNode Number
  step node x = elim (JsMap.get community_of node.id) [
    | none ↦ x
    | some index ↦ overwrite node.id (with_community n labels index node.metadata) x
  ]

  abbrev steps : List (StoredNode Number) → StoredNode Number → StoredNode Number
  steps [] x = x
  steps (node ∷ nodes) x = steps nodes (step node x)

  module _ (node : StoredNode Number) where
    step_unassigned :
        JsMap.get community_of node.id ≡ none → (x : StoredNode Number) → step node x ≡ x
    step_unassigned e x = rw (e, step) refl

    step_assigned :
        (index : ℕ)
        → JsMap.get community_of node.id ≡ some index
        → (x : StoredNode Number)
        → step node x ≡ overwrite node.id (with_community n labels index node.metadata) x
    step_assigned index e x = rw (e, step) refl

    step_self : step node node ≡ assigned node
    unfolding overwrite with_community label_at ordinal
    step_self = elim (Option-cases (JsMap.get community_of node.id)) [
      | inl e ↦ step_unassigned e node ∙ rw (e, assigned) refl
      | inr (index, e) ↦
          step_assigned index e node
          ∙ rw ((text_eq_iff node.id node.id).1 refl) (rw (e, assigned) refl)
    ]

    step_other : (x : StoredNode Number) → text_eq node.id x.id ≡ false → step node x ≡ x
    unfolding overwrite
    step_other x f = elim (Option-cases (JsMap.get community_of node.id)) [
      | inl e ↦ step_unassigned e x
      | inr (index, e) ↦ step_assigned index e x ∙ rw f refl
    ]

    assigned_id : (assigned node).id ≡ node.id
    assigned_id = elim (Option-cases (JsMap.get community_of node.id)) [
      | inl e ↦ rw (e, assigned) refl
      | inr (index, e) ↦ rw (e, assigned) refl
    ]

  steps_absent :
      (nodes : List (StoredNode Number)) (x : StoredNode Number)
      → All (λ y. text_eq y.id x.id ≡ false) nodes
      → steps nodes x ≡ x
  steps_absent [] x h = refl
  steps_absent (node ∷ nodes) x h =
      ap (steps nodes) (step_other node x h.0) ∙ steps_absent nodes x h.1

  -- The updates of all nodes, one after the other, give each its own.
  steps_all :
      (nodes : List (StoredNode Number))
      → UniqueIds nodes
      → All (λ x. steps nodes x ≡ assigned x) nodes
  steps_all [] u = tt
  steps_all (node ∷ nodes) u = (
    ap (steps nodes) (step_self node)
        ∙ steps_absent nodes (assigned node)
            (subst (λ id. All (λ y. text_eq y.id id ≡ false) nodes) (sym (assigned_id node)) u.0),
    All_both (λ y. text_eq y.id node.id ≡ false) (λ x. steps nodes x ≡ assigned x)
        (λ x. steps nodes (step node x) ≡ assigned x)
        (λ x h e. ap (steps nodes) (step_other node x (text_eq_sym x.id node.id h)) ∙ e) nodes u.0
        (steps_all nodes u.1),
  )

  nodes-updates :
      (db : Database Number) (nodes : List (StoredNode Number)) (s : db.State)
      → db.nodes (write_node_metadata db (community_updates n community_of labels nodes) s)
        ≡ map (steps nodes) (db.nodes s)
  unfolding community_updates write_node_metadata
  nodes-updates db [] s = sym (map-id_of (db.nodes s))
  nodes-updates db (node ∷ nodes) s = elim (Option-cases (JsMap.get community_of node.id)) [
    | inl e ↦
        rw (e, community_updates) (nodes-updates db nodes s)
        ∙ map-ext (steps nodes) (λ x. steps nodes (step node x))
            (λ x. ap (steps nodes) (sym (step_unassigned node e x))) (db.nodes s)
    | inr (index, e) ↦
        let md = with_community n labels index node.metadata in
        rw (e, community_updates, write_node_metadata)
          (nodes-updates db nodes (db.set_metadata node.id md s))
        ∙ ap (map (steps nodes)) (db.nodes-set_metadata node.id md s)
        ∙ map-map (steps nodes) (overwrite node.id md) (db.nodes s)
        ∙ map-ext (λ x. steps nodes (overwrite node.id md x)) (λ x. steps nodes (step node x))
            (λ x. ap (steps nodes) (sym (step_assigned node index e x))) (db.nodes s)
  ]

module _ (n : Numbers) (l : Leiden n.Number) (parse_json : Text → Option (Json n.Number))
    (db : Database n.Number) (run : db.State → List EdgeKind → List KindRow)
    (weights : EdgeKind → Option n.Number) (options : CommunityOptions n.Number)
    (s : db.State) where
  -- The communities that the edges of the database are found to have, and their labels.
  abbrev pub communities : JsMap Text ℕ
  communities = (detect n l (read_weighted_edges n parse_json (run s) weights) options).community_of

  abbrev pub labels_of : JsMap ℕ Text
  labels_of =
      label n communities (map labelable_of (db.nodes s))
        (read_weighted_edges n parse_json (run s) weights)

  -- After cluster, where the nodes of the database have distinct ids, the nodes are those of before,
  -- in their order: a node that detect gives a community has its index and its label in its metadata,
  -- every other key and every other node is as it was, and nothing but metadata has changed.
  pub cluster-nodes :
      UniqueIds (db.nodes s)
      → db.nodes (cluster n l parse_json db run weights options s).0
        ≡ map (assigned n communities labels_of) (db.nodes s)
  unfolding cluster
  cluster-nodes u =
      db.nodes-set_meta _ _ _
      ∙ nodes-updates n communities labels_of db (db.nodes s) s
      ∙ map-All (steps n communities labels_of (db.nodes s)) (assigned n communities labels_of)
          (db.nodes s) (steps_all n communities labels_of (db.nodes s) u)
