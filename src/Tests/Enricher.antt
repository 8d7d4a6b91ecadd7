-- ===== src/Tests/Enricher.antt =====
-- Enriching a small database, kept as lists.
use codespine.Common.{
  ℕ, ◌≡◌, refl, List, [], ◌∷◌, Text, codes, none, some, map, text_key, text_eq, length,
}
use codespine.Common.Int.{pos}
use codespine.Common.JsMap.{JsMap}
use codespine.Schema.{GraphNode, GraphEdge, calls, function}
use codespine.Store.{load, load_nodes, write_edges}
use codespine.Store.Load.{ids_of, joined_by, load-joined}
use codespine.Enrich.Profile.{CpuProfileData, ProfileNode}
use codespine.Enrich.Join.{RuntimeCallEdge}
use codespine.Enrich.CallTree.{subtree_samples, call_edges}
use codespine.Enrich.CallTree.Ends.{call_edges_end}
use codespine.Enrich.Enricher.{enrich}
use codespine.Enrich.Enricher.Attached.{enriched, attributions_of, enrich-nodes}
use codespine.Enrich.Enricher.Again.{enrich-again}
use codespine.Tests.Samples.{naturals, plain_paths, database, tables}

abbrev profile_node : ProfileNode
profile_node = record {
  id = 1;
  call_frame = record {
    function_name = codes "f";
    url = codes "a.ts";
    line_number = pos 0;
    column_number = 0;
  };
  hit_count = some 4;
  children = none;
}

abbrev profile : CpuProfileData
profile = record { nodes = profile_node ∷ []; samples = none; time_deltas = none }

enrich-nodes_example :
    database.nodes (enrich naturals database plain_paths profile (codes "/") tables).0
    ≡ map
        (enriched naturals
          (attributions_of naturals database plain_paths profile (codes "/") tables))
        tables.nodes
enrich-nodes_example =
    enrich-nodes naturals database plain_paths profile (codes "/") tables
      (unfold text_eq in ((refl, tt), (tt, tt)))

enrich-again_example :
    database.nodes
      (enrich naturals database plain_paths profile
        (codes "/")
        (enrich naturals database plain_paths profile (codes "/") tables).0).0
    ≡ database.nodes (enrich naturals database plain_paths profile (codes "/") tables).0
enrich-again_example =
    enrich-again naturals database plain_paths profile (codes "/") tables
      (unfold text_eq in ((refl, tt), (tt, tt)))

abbrev graph_node : Text → GraphNode ℕ
graph_node id = record {
  id = id;
  kind = function;
  name = id;
  file_path = codes "a.ts";
  range = none;
  exported = none;
  metadata = none;
}

abbrev graph_edge : Text → Text → GraphEdge ℕ
graph_edge from to = record { id = []; kind = calls; from = from; to = to; metadata = none }

abbrev loaded_nodes : List (GraphNode ℕ)
loaded_nodes = graph_node (codes "f") ∷ graph_node (codes "g") ∷ []

abbrev loaded_edges : List (GraphEdge ℕ)
loaded_edges = graph_edge (codes "f") (codes "g") ∷ graph_edge (codes "f") (codes "lost") ∷ []

load-joined_example :
    ((load database loaded_nodes loaded_edges tables).0
      ≡ write_edges database
          (joined_by database (ids_of database loaded_nodes) loaded_edges)
          (load_nodes database [] loaded_nodes tables).1)
    × ((load database loaded_nodes loaded_edges tables).1.1
        ≡ length (joined_by database (ids_of database loaded_nodes) loaded_edges))
load-joined_example = load-joined database loaded_nodes loaded_edges tables

-- Two nodes, each the other's child.
abbrev looping : CpuProfileData
looping = record {
  nodes =
      record profile_node { children = some (2 ∷ 9 ∷ []) }
      ∷ record profile_node { id = 2; children = some (1 ∷ []) }
      ∷ [];
  samples = some (1 ∷ 2 ∷ 2 ∷ []);
  time_deltas = none;
}

call_edges_end_example :
    ((m : JsMap ℕ ℕ) × (subtree_samples looping ≡ some m))
    × ((edges : List RuntimeCallEdge) × (call_edges looping ≡ some edges))
call_edges_end_example = call_edges_end looping
