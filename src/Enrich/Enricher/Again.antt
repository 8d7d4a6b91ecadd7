-- ===== src/Enrich/Enricher/Again.antt =====
-- Running `enrich` again.
use codespine.Common.{
  ◌≡◌, refl, ◌∙◌, sym, ap, subst, none, some, List, [], ◌∷◌, map, Text, Option-cases, inl, inr,
  text_key, text_eq, All, false,
}
use codespine.Common.JsMap
use codespine.Common.JsMap.{JsMap}
use codespine.Schema.{StoredNode}
use codespine.Query.Types.{Numbers}
use codespine.Common.Maps.{map-map, map-ext}
use codespine.Store.Nodes.{UniqueIds}
use codespine.Store.{Database}
use codespine.Enrich.Profile.{CpuProfileData, aggregate}
use codespine.Enrich.Join.Resolve.{NodePath, TargetNode}
use codespine.Enrich.Join.{Attribution, join}
use codespine.Enrich.Enricher.{runtime_key, target_of, to_metrics, enrich}
use codespine.Enrich.Enricher.Attached.{enriched, attributions_of, enrich-nodes}

module _ (n : Numbers) (m : JsMap Text Attribution) where
  open n use {Number}

  enriched_unknown : (x : StoredNode Number) → JsMap.get m x.id ≡ none → enriched n m x ≡ x
  enriched_unknown x e = rw (e, enriched) refl

  enriched_known :
      (x : StoredNode Number) (a : Attribution)
      → JsMap.get m x.id ≡ some a
      → enriched n m x ≡ (record x { metadata = JsMap.set x.metadata runtime_key (to_metrics n a) })
  enriched_known x a e = rw (e, enriched) refl

  enriched-enriched : (x : StoredNode Number) → enriched n m (enriched n m x) ≡ enriched n m x
  enriched-enriched x = elim (Option-cases (JsMap.get m x.id)) [
    | inl e ↦ ap (enriched n m) (enriched_unknown x e)
    | inr (a, e) ↦
        let v = to_metrics n a in
        let x' : StoredNode Number = record x { metadata = JsMap.set x.metadata runtime_key v } in
        ap (enriched n m) (enriched_known x a e)
        ∙ enriched_known x' a e
        ∙ ap (λ md. record x { metadata = md }) (JsMap.set-set x.metadata runtime_key v v)
        ∙ sym (enriched_known x a e)
  ]

  target_of-enriched : (x : StoredNode Number) → target_of (enriched n m x) ≡ target_of x
  unfolding target_of
  target_of-enriched x = elim (Option-cases (JsMap.get m x.id)) [
    | inl e ↦ rw (e, enriched) refl
    | inr (a, e) ↦ rw (e, enriched) refl
  ]

  id-enriched : (x : StoredNode Number) → (enriched n m x).id ≡ x.id
  unfolding target_of
  id-enriched x = ap (λ (t : TargetNode). t.id) (target_of-enriched x)

  targets-enriched :
      (xs : List (StoredNode Number)) → map target_of (map (enriched n m) xs) ≡ map target_of xs
  targets-enriched [] = refl
  targets-enriched (x ∷ xs) = rw (target_of-enriched x, targets-enriched xs) refl

  away :
      (id : Text) (xs : List (StoredNode Number))
      → All (λ y. text_eq y.id id ≡ false) xs
      → All (λ y. text_eq y.id id ≡ false) (map (enriched n m) xs)
  away id [] h = tt
  away id (x ∷ xs) h = (rw (id-enriched x) h.0, away id xs h.1)

  enriched-UniqueIds :
      (xs : List (StoredNode Number)) → UniqueIds xs → UniqueIds (map (enriched n m) xs)
  enriched-UniqueIds [] u = tt
  enriched-UniqueIds (x ∷ xs) u = (rw (id-enriched x) (away x.id xs u.0), enriched-UniqueIds xs u.1)

module _ (n : Numbers) (db : Database n.Number) (p : NodePath) (profile : CpuProfileData)
    (root : Text) (s : db.State) where
  -- Where the nodes of the database have distinct ids, enriching again with the same profile leaves
  -- the nodes as the first run left them.
  pub enrich-again :
      UniqueIds (db.nodes s)
      → db.nodes (enrich n db p profile root (enrich n db p profile root s).0).0
        ≡ db.nodes (enrich n db p profile root s).0
  enrich-again u =
      let s1 = (enrich n db p profile root s).0 in
      let m = attributions_of n db p profile root s in
      let m1 = attributions_of n db p profile root s1 in
      let xs = db.nodes s in
      let e : db.nodes s1 ≡ map (enriched n m) xs = enrich-nodes n db p profile root s u in
      let same : m1 ≡ m =
        ap (λ (ts : List TargetNode). (join p ts (aggregate profile) root).attributions)
          (ap (map target_of) e ∙ targets-enriched n m xs) in
      enrich-nodes n db p profile root s1 (subst UniqueIds (sym e) (enriched-UniqueIds n m xs u))
      ∙ ap (λ (k : JsMap Text Attribution). map (enriched n k) (db.nodes s1)) same
      ∙ ap (map (enriched n m)) e
      ∙ map-map (enriched n m) (enriched n m) xs
      ∙ map-ext (λ x. enriched n m (enriched n m x)) (enriched n m) (enriched-enriched n m) xs
      ∙ sym e
