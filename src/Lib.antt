-- ===== src/Lib.antt =====
-- codespine: a knowledge graph of a TypeScript project, built from its sources, enriched with a CPU
-- profile, and queried. This library models the graph, its construction, the join of profiles onto
-- it and the queries over it.
--
-- The parts, and where they stand (paths from the repository's root):
-- - Schema: src/schema/node.ts and src/schema/edge.ts, the kinds, nodes and edges of the graph, and
--   the StoredNode of src/store/kuzu_store.ts. JSON values are a data type over the numbers.
-- - Builder: src/extract/graph_builder.ts. `GraphBuilder` is the record of its two maps; `build`,
--   `merge` and `add_edge` are the methods. The extractors read syntax trees of ts-morph and are
--   functions given to `build`.
-- - Store: src/store/kuzu_store.ts, the writes of `KuzuStore` over `Database`, a record of what Kuzu
--   does for their statements and the laws that it documents.
-- - Enrich.Profile and Enrich.CallTree: src/enrich/cpu_profile.ts, `aggregate` and `total_samples`,
--   and `subtree_samples` and `call_edges`.
-- - Enrich.Join: src/enrich/runtime_join.ts. `join` and `join_call_edges` fold `settle` and
--   `settle_call` over the frames and the calls of a profile; Enrich.Join.Resolve is the resolution
--   of a frame to a file and a node. The functions of node:path and node:url are the record
--   `NodePath`.
-- - Enrich.Enricher: src/enrich/runtime_enricher.ts, `enrich` as a function from a state of the
--   database to the next one and a report.
-- - Query.Rows, Query.Clamp, Query.Radius, Query.Hotspots, Query.Components, Query.Cost:
--   src/query/graph_query.ts. Rows decodes what the database answers; Clamp has the limits; Radius
--   the transitive callers (`blastRadiusSizes`, `reachableCount`); Hotspots the rankings and
--   `deadExports`; Components is Tarjan's algorithm, and Components.Assigned what it keeps of its
--   arrays; Cost the cost model with its ranking, its breakdown of one node and the call cycles. A
--   write to `members[comp]` where there is no such component throws, which is `none`.
-- - Query.Allowlist: src/query/dead_exports_allowlist.ts.
-- - Query.Campaign: src/query/campaign_planner.ts, over a record of the queries that a plan asks.
-- - Cluster.Detector: src/cluster/community_detector.ts, `detect` with `index_nodes` and `symmetrize`,
--   whose text keys `${low}:${high}` are printed and parsed as the source does. The library
--   networkanalysis-ts is the record `Leiden`.
-- - Cluster.Labeler: src/cluster/community_labeler.ts, `label`.
-- - Cluster.Clusterer: src/cluster/graph_clusterer.ts and src/cluster/cluster_weights.ts, `cluster` as
--   a function from a state of the database to the next one and a report.
-- - Cluster.Namer: src/cluster/community_namer.ts, `summarize`, `plan_renames` (`plan`) and
--   `update_manifest_labels`.
-- - Verify: src/verify/project_verifier.ts, `verify` over a function that runs a command in a world
--   and answers with the next world.
-- - Benchmark: src/benchmark/node_benchmark.ts, and Benchmark.Stats: src/benchmark/benchmark_stats.ts,
--   the statistics; what they throw is the second constructor of `Attempt`, or `none`.
-- - Report: src/report/report_data.ts. Report.Types are its types, Report.Findings the key findings
--   and the verdict, Report.Gather is `gather` over the answers of the queries.
-- - Common: the shared helpers. Lists.`set` and `get_elem?` are array accesses; JsMap is
--   JavaScript's Map in insertion order; Sort is `Array.sort` by a comparator, with `top` for a sort
--   and a slice; Strings, Digits and Int are the text operations, decimal numbers
--   and integers that the code uses; Rebuild has the loops that fill one map from another.
-- - Tests: runs of the model and of the theorems at concrete inputs.
--
-- How the parts interact: the builder's graph is loaded in a Kuzu database; enrich reads its nodes
-- back, joins the frames that Profile aggregates and the calls that CallTree finds onto them, and
-- writes the figures to the metadata of the nodes and to edges; Rows reads those metadata, which
-- Hotspots and Cost rank by; Campaign plans over Hotspots and the other queries. cluster reads the
-- edges back, has Detector find the communities and Labeler name them, and writes both to the
-- metadata of the nodes, where Namer and Report find them; Report sums up Hotspots, Cost and the
-- communities. Benchmark reads one node of Cost after each run of a workload; Verify runs the
-- type-check and the tests of a project.
--
-- The choices of the model:
-- - Texts are lists of UTF-16 code units. Counts, lines, samples and microseconds are natural
--   numbers; line numbers from a profile and clipped deltas are integers.
-- - The numbers of `metadata`, scores and costs are JavaScript's floats. They are the interface
--   `Numbers`: its operations are not interpreted, and its order is consistent, so NaN is not one of
--   its numbers. `localeCompare` is the interface `Collation`, a consistent order.
-- - A number that a caller passes as a limit or a depth enters by its floor, or as not finite.
-- - The rows that the database answers with, and the runtime manifest, are arguments; `JSON.parse`
--   is a function with an optional result.
-- - The `while` loop of `reachableCount` takes `walk_fuel` rounds, twice the number of edges: an id
--   is pushed at most once for an edge from the first bucket and once for an edge of a visited id.
--   The loop of Tarjan's algorithm takes `work_fuel` rounds, the nodes and the edges: each round
--   takes an edge or a node off. The loop over a call tree takes `tree_fuel` rounds: a node pushes
--   its children once, and every node on the stack leaves it once. `none` as a result says that the
--   fuel ran out.
-- - A sort is insertion sort: `Array.sort` is stable, and every sorted permutation that keeps the
--   order of equal entries is the same list.
--
-- - The ids of nodes are distinct where a comparator breaks its last tie by them, and the indices of
--   communities are natural numbers.
-- - Profiling a run of a benchmark gives the next state of the database or the message that it
--   throws; the queries of a benchmark are taken to answer.
-- - A random start of the Leiden algorithm is the number of the start: what the library answers is a
--   function of it. A quality that is `NaN` or minus infinity is `none`.
--
-- Not modelled: the text of Cypher queries, which Kuzu answers; the extractors and ts-morph; the
-- Leiden algorithm of networkanalysis-ts; the JSONL files; spawning a process, reading its profile
-- and its exit; the provenance of a report and its rendering to Markdown, HTML and PDF; the command
-- line, the web view, the documentation site and the scripts. They are I/O, presentation or
-- third-party code, or parts that the theorems below do not touch.
pub mod Benchmark
pub mod Builder
pub mod Cluster
pub mod Common
pub mod Enrich
pub mod Query
pub mod Report
pub mod Schema
pub mod Store
pub mod Tests
pub mod Verify
