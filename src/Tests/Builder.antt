-- ===== src/Tests/Builder.antt =====
-- The builder on two files that emit one edge three times.
use Prim.Native.String.{String}
use codespine.Common.{
  ◌≡◌, refl, List, [], ◌∷◌, Text, codes, none, true, sum_by, text_key, length, text_eq, map,
}
use codespine.Common.Strings.{contains, ends_with}
use codespine.Common.JsMap
use codespine.Common.JsMap.{UniqueKeys}
use codespine.Schema.{calls}
use codespine.Builder.{
  Edge, Extraction, Extractors, empty, build, get_edges, current_count, merge, build_structure,
  add_edges, add_nodes, build_semantics,
}
use codespine.Builder.Counts.{first_counted}
use codespine.Builder.Emitted.{emitted_edges, build-edge_counts, build-count_total}

abbrev call_edge : String → Edge
call_edge id = record {
  id = codes id;
  kind = calls;
  from = codes "f";
  to = codes "g";
  metadata = none;
}

abbrev emits : List Edge → Extraction
emits es = record { nodes = []; edges = es }

-- A file is its path.
abbrev extractors : Extractors Text
extractors = record {
  file_path = λ f. f;
  structural = λ f. emits (call_edge "e" ∷ []);
  config = λ f. emits [];
  api = λ f. emits [];
  semantic = λ f. emits (call_edge "e" ∷ call_edge "d" ∷ []);
  endpoint = λ f. emits [];
}

abbrev files : List Text
files = codes "a.ts" ∷ codes "x/node_modules/b.ts" ∷ codes "c.d.ts" ∷ []

counts_run :
    map (λ e. current_count e.metadata) (get_edges (build extractors empty files true)) ≡ 2 ∷ 1 ∷ []
unfolding build build_structure build_semantics merge add_edges add_nodes get_edges current_count
    text_eq contains ends_with JsMap.get JsMap.set codespine.Builder.add_edge
    codespine.Builder.stored_edge codespine.Builder.with_count codespine.Builder.is_project_file
counts_run = refl

build-edge_counts_example :
    JsMap.get (build extractors empty files true).edges (codes "e")
    ≡ first_counted (codes "e") (emitted_edges extractors files true)
build-edge_counts_example = build-edge_counts extractors files true (codes "e")

build-count_total_example :
    (sum_by (λ e. current_count e.metadata) (get_edges (build extractors empty files true))
      ≡ length (emitted_edges extractors files true))
    × UniqueKeys (build extractors empty files true).edges
build-count_total_example = build-count_total extractors files true
