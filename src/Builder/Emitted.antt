-- ===== src/Builder/Emitted.antt =====
-- `build` as a whole, against the sequence of edges and nodes that the extractors emit.
use codespine.Common.{
  ℕ, ◌+◌, ◌≡◌, refl, ◌∙◌, Bool, true, false, Option, none, some, List, [], ◌∷◌, ◌++◌, arith, Text,
  text_key, if◌then◌else◌, filter, sum_by, length,
}
use native.Mathlib.Nat.{zero-add}
use mathlib.Core.List.{append-nil}
use codespine.Common.JsMap
use codespine.Common.JsMap.{JsMap, sum_by-set, UniqueKeys, set-UniqueKeys, values, measure_at}
use codespine.Builder.{
  Edge, Extractors, GraphBuilder, empty, current_count, stored_edge, add_edge, add_edges, merge,
  build_structure, build_semantics, build, is_project_file, get_edges,
}
use codespine.Builder.Counts.{first_counted, get-add_edges, current_count-with_count}

abbrev count_of : Edge → ℕ
count_of e = current_count e.metadata

count_of-stored_edge :
    (o : Option Edge) (e : Edge) → count_of (stored_edge o e) ≡ measure_at count_of o + 1
unfolding stored_edge
count_of-stored_edge none e = rw (current_count-with_count e.metadata 1) (omega arith)
count_of-stored_edge (some a) e = current_count-with_count a.metadata (current_count a.metadata + 1)

add_edge-total :
    (m : JsMap Text Edge) (e : Edge)
    → sum_by count_of (values (add_edge m e)) ≡ sum_by count_of (values m) + 1
unfolding add_edge
add_edge-total m e = omega (
  arith,
  sum_by-set count_of m e.id (stored_edge (JsMap.get m e.id) e),
  count_of-stored_edge (JsMap.get m e.id) e,
)

add_edges-total :
    (m : JsMap Text Edge) (es : List Edge)
    → sum_by count_of (values (add_edges m es)) ≡ sum_by count_of (values m) + length es
unfolding add_edges
add_edges-total m [] = omega arith
add_edges-total m (e ∷ es) = omega (arith, add_edges-total (add_edge m e) es, add_edge-total m e)

add_edges-UniqueKeys :
    (m : JsMap Text Edge) (es : List Edge) → UniqueKeys m → UniqueKeys (add_edges m es)
unfolding add_edges add_edge
add_edges-UniqueKeys m [] u = u
add_edges-UniqueKeys m (e ∷ es) u =
    add_edges-UniqueKeys (add_edge m e) es (set-UniqueKeys m e.id _ u)

module _ {F : Type 0} (x : Extractors F) where
  -- The edges that the structural pass emits over the files, in order.
  abbrev pub structure_edges : List F → List Edge
  structure_edges [] = []
  structure_edges (f ∷ fs) =
      (x.structural f).edges ++ (x.config f).edges ++ (x.api f).edges ++ structure_edges fs

  abbrev pub semantic_edges : List F → List Edge
  semantic_edges [] = []
  semantic_edges (f ∷ fs) = (x.semantic f).edges ++ (x.endpoint f).edges ++ semantic_edges fs

  -- All that a build emits.
  abbrev pub emitted_edges : List F → Bool → List Edge
  emitted_edges files semantic =
      let source_files = filter (λ f. is_project_file (x.file_path f)) files in
      structure_edges source_files ++ (if semantic then semantic_edges source_files else [])

  add_edges-append :
      (m : JsMap Text Edge) (es ds : List Edge)
      → add_edges m (es ++ ds) ≡ add_edges (add_edges m es) ds
  unfolding add_edges
  add_edges-append m [] ds = refl
  add_edges-append m (e ∷ es) ds = add_edges-append (add_edge m e) es ds

  edges-build_structure :
      (b : GraphBuilder) (fs : List F)
      → (build_structure x b fs).edges ≡ add_edges b.edges (structure_edges fs)
  unfolding build_structure merge
  edges-build_structure b [] = unfold add_edges in refl
  edges-build_structure b (f ∷ fs) =
      let b' = merge (merge (merge b (x.structural f)) (x.config f)) (x.api f) in
      simp (add_edges-append, edges-build_structure b' fs)

  edges-build_semantics :
      (b : GraphBuilder) (fs : List F)
      → (build_semantics x b fs).edges ≡ add_edges b.edges (semantic_edges fs)
  unfolding build_semantics merge
  edges-build_semantics b [] = unfold add_edges in refl
  edges-build_semantics b (f ∷ fs) =
      let b' = merge (merge b (x.semantic f)) (x.endpoint f) in
      simp (add_edges-append, edges-build_semantics b' fs)

  edges-build :
      (files : List F) (semantic : Bool)
      → (build x empty files semantic).edges ≡ add_edges [] (emitted_edges files semantic)
  unfolding build
  edges-build files true = simp (add_edges-append, edges-build_structure, edges-build_semantics)
  edges-build files false = simp (append-nil, edges-build_structure)

  -- The graph of a build holds, under an edge id, the first edge emitted with that id, with `count`
  -- set to the number of times that id was emitted; and no edge under an id that was not emitted.
  pub build-edge_counts :
      (files : List F) (semantic : Bool) (k : Text)
      → JsMap.get (build x empty files semantic).edges k
        ≡ first_counted k (emitted_edges files semantic)
  build-edge_counts files semantic k =
      rw (edges-build files semantic) (get-add_edges (emitted_edges files semantic) k)

  -- In a build the counts of the edges add up to the number of edges that the extractors emitted,
  -- and no id occurs twice: merging by id loses no occurrence.
  pub build-count_total :
      (files : List F) (semantic : Bool)
      → (sum_by (λ e. current_count e.metadata) (get_edges (build x empty files semantic))
          ≡ length (emitted_edges files semantic))
        × UniqueKeys (build x empty files semantic).edges
  unfolding get_edges
  build-count_total files semantic =
      let es = emitted_edges files semantic in
      rw (edges-build files semantic)
        ((add_edges-total [] es ∙ zero-add (length es)), add_edges-UniqueKeys [] es tt)
