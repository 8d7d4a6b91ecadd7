-- ===== src/Enrich/Enricher/Attached.antt =====
-- What `enrich` leaves in the database.
use codespine.Common.{
  ◌≡◌, refl, ◌∙◌, sym, ap, false, none, some, List, [], ◌∷◌, map, Text, Bool-cases, Option-cases,
  inl, inr, text_key, text_eq, text_eq_iff, arith, All,
}
use codespine.Common.JsMap
use codespine.Common.JsMap.{JsMap, UniqueKeys, set-UniqueKeys}
use codespine.Common.Maps.{map-id_of, map-ext, map-map}
use codespine.Schema.{StoredNode, calls_runtime}
use codespine.Query.Types.{Numbers}
use codespine.Query.Cost.Report.{node_by_id}
use codespine.Store.Nodes.{UniqueIds}
use codespine.Store.{Database, overwrite, write_node_metadata, nodes-write_edges}
use codespine.Enrich.Profile.{CpuProfileData, FrameSample, aggregate}
use codespine.Enrich.Join.Resolve.{NodePath, FrameRef, NodeResolution, resolved, unresolved}
use codespine.Enrich.Join.{
  Attribution, Joined, join, join_loop, settle, match_frame, drop_frame, attribute, nothing_joined,
  resolve_among, frame_ref,
}
use codespine.Enrich.Enricher.{runtime_key, target_of, to_metrics, updates_of, enrich}

settle-UniqueKeys :
    (s : Joined) (f : FrameSample) (r : NodeResolution)
    → UniqueKeys s.attributions
    → UniqueKeys (settle s f r).attributions
unfolding settle match_frame drop_frame attribute
settle-UniqueKeys s f (unresolved x) u = u
settle-UniqueKeys s f (resolved node via) u = set-UniqueKeys s.attributions node.id _ u

join_loop-UniqueKeys :
    (resolve : FrameRef → NodeResolution) (s : Joined) (frames : List FrameSample)
    → UniqueKeys s.attributions
    → UniqueKeys (join_loop resolve s frames).attributions
unfolding join_loop
join_loop-UniqueKeys resolve s [] u = u
join_loop-UniqueKeys resolve s (f ∷ fs) u =
    join_loop-UniqueKeys resolve (settle s f (resolve (frame_ref f))) fs
      (settle-UniqueKeys s f (resolve (frame_ref f)) u)

map-map-All {ℓ} :
    {A : Type ℓ} (P : A → Type 0) (f g : A → A)
    → ((x : A) → P x → f x ≡ g x)
    → (xs : List A) → All P xs
    → map f xs ≡ map g xs
map-map-All P f g h [] p = refl
map-map-All P f g h (x ∷ xs) p = rw (h x p.0, map-map-All P f g h xs p.1) refl

module _ (n : Numbers) where
  open n use {Number}

  -- A node with what the attributions give it: only its `runtime` key is written.
  abbrev pub enriched : JsMap Text Attribution → StoredNode Number → StoredNode Number
  enriched m node = elim (JsMap.get m node.id) [
    | none ↦ node
    | some a ↦ record node { metadata = JsMap.set node.metadata runtime_key (to_metrics n a) }
  ]

  module _ (by_id : JsMap Text (StoredNode Number)) where
    abbrev step : Text → Attribution → StoredNode Number → StoredNode Number
    step id a x = elim (JsMap.get by_id id) [
      | none ↦ x
      | some node ↦ overwrite id (JsMap.set node.metadata runtime_key (to_metrics n a)) x
    ]

    abbrev steps : JsMap Text Attribution → StoredNode Number → StoredNode Number
    steps [] x = x
    steps ((id, a) ∷ m) x = steps m (step id a x)

    step_unknown :
        (id : Text) (a : Attribution)
        → JsMap.get by_id id ≡ none
        → (x : StoredNode Number) → step id a x ≡ x
    step_unknown id a e x = rw (e, step) refl

    step_known :
        (id : Text) (a : Attribution) (node : StoredNode Number)
        → JsMap.get by_id id ≡ some node
        → (x : StoredNode Number)
        → step id a x ≡ overwrite id (JsMap.set node.metadata runtime_key (to_metrics n a)) x
    step_known id a node e x = rw (e, step) refl

    nodes-updates :
        (db : Database Number) (m : JsMap Text Attribution) (s : db.State)
        → db.nodes (write_node_metadata db (updates_of n by_id m) s) ≡ map (steps m) (db.nodes s)
    unfolding updates_of write_node_metadata
    nodes-updates db [] s = sym (map-id_of (db.nodes s))
    nodes-updates db ((id, a) ∷ m) s = elim (Option-cases (JsMap.get by_id id)) [
      | inl e ↦
          rw (e, updates_of) (nodes-updates db m s)
          ∙ map-ext (steps m) (λ x. steps m (step id a x))
              (λ x. ap (steps m) (sym (step_unknown id a e x))) (db.nodes s)
      | inr (node, e) ↦
          let md = JsMap.set node.metadata runtime_key (to_metrics n a) in
          rw (e, updates_of, write_node_metadata) (nodes-updates db m (db.set_metadata id md s))
          ∙ ap (map (steps m)) (db.nodes-set_metadata id md s)
          ∙ map-map (steps m) (overwrite id md) (db.nodes s)
          ∙ map-ext (λ x. steps m (overwrite id md x)) (λ x. steps m (step id a x))
              (λ x. ap (steps m) (sym (step_known id a node e x))) (db.nodes s)
    ]

    -- An update of another id leaves a node as it is.
    step_other :
        (id : Text) (a : Attribution) (x : StoredNode Number)
        → text_eq id x.id ≡ false
        → step id a x ≡ x
    unfolding overwrite
    step_other id a x f = elim (Option-cases (JsMap.get by_id id)) [
      | inl e ↦ step_unknown id a e x
      | inr (node, e) ↦ step_known id a node e x ∙ rw f refl
    ]

    steps_absent :
        (m : JsMap Text Attribution) (x : StoredNode Number)
        → JsMap.get m x.id ≡ none
        → steps m x ≡ x
    unfolding JsMap.get
    steps_absent [] x h = refl
    steps_absent ((id, a) ∷ m) x h = elim (Bool-cases (text_eq id x.id)) [
      | inl t ↦ absurd (ground (arith, t, h))
      | inr f ↦ ap (steps m) (step_other id a x f) ∙ steps_absent m x (ground (arith, f, h))
    ]

    -- A node that the map holds under its id gets what the attributions give it.
    steps_held :
        (m : JsMap Text Attribution) (x : StoredNode Number)
        → UniqueKeys m
        → JsMap.get by_id x.id ≡ some x
        → steps m x ≡ enriched m x
    unfolding JsMap.get overwrite
    steps_held [] x u h = refl
    steps_held ((id, a) ∷ m) x u h = elim (Bool-cases (text_eq id x.id)) [
      | inl t ↦
          let q = (text_eq_iff id x.id).0 t in
          let x' = record x { metadata = JsMap.set x.metadata runtime_key (to_metrics n a) } in
          ap (steps m) (step_known id a x (ap (JsMap.get by_id) q ∙ h) x ∙ rw t refl)
          ∙ steps_absent m x' (ap (JsMap.get m) (sym q) ∙ u.0)
          ∙ rw (t, enriched) refl
      | inr f ↦ ap (steps m) (step_other id a x f) ∙ steps_held m x u.1 h ∙ rw (f, enriched) refl
    ]

  -- A node whose id no later node has is what the map holds under it.
  get-node_by_id :
      (xs : List (StoredNode Number)) (m : JsMap Text (StoredNode Number)) (id : Text)
      → All (λ y. text_eq y.id id ≡ false) xs
      → JsMap.get (node_by_id n m xs) id ≡ JsMap.get m id
  unfolding node_by_id
  get-node_by_id [] m id h = refl
  get-node_by_id (x ∷ xs) m id h =
      get-node_by_id xs (JsMap.set m x.id x) id h.1 ∙ JsMap.get-set m x.id id x ∙ rw h.0 refl

  held :
      (xs : List (StoredNode Number)) (m : JsMap Text (StoredNode Number))
      → UniqueIds xs
      → All (λ x. JsMap.get (node_by_id n m xs) x.id ≡ some x) xs
  unfolding node_by_id
  held [] m u = tt
  held (x ∷ xs) m u = (
    get-node_by_id xs (JsMap.set m x.id x) x.id u.0 ∙ JsMap.get-set_self m x.id x,
    held xs (JsMap.set m x.id x) u.1,
  )

  module _ (db : Database Number) (p : NodePath) (profile : CpuProfileData) (root : Text)
      (s : db.State) where
    -- What the join of the profile attributes to the nodes of the database.
    abbrev pub attributions_of : JsMap Text Attribution
    attributions_of = (join p (map target_of (db.nodes s)) (aggregate profile) root).attributions

    -- After enrich, where the nodes of the database have distinct ids, the nodes are those of before,
    -- in their order: a node that the join attributes to has its metrics under the `runtime` key of
    -- its metadata, every other key and every other node is as it was, and nothing but metadata has
    -- changed.
    pub enrich-nodes :
        UniqueIds (db.nodes s)
        → db.nodes (enrich n db p profile root s).0 ≡ map (enriched attributions_of) (db.nodes s)
    unfolding enrich
    enrich-nodes u =
        let by_id = node_by_id n [] (db.nodes s) in
        let keys : UniqueKeys attributions_of =
          unfold join in
          join_loop-UniqueKeys (resolve_among p (map target_of (db.nodes s)) root) nothing_joined
            (aggregate profile) tt in
        nodes-write_edges db _ _
        ∙ db.nodes-delete_edges calls_runtime _
        ∙ db.nodes-set_meta runtime_key _ _
        ∙ nodes-updates by_id db attributions_of s
        ∙ map-map-All (λ x. JsMap.get by_id x.id ≡ some x) (steps by_id attributions_of)
            (enriched attributions_of) (λ x h. steps_held by_id attributions_of x keys h)
            (db.nodes s) (held (db.nodes s) [] u)
