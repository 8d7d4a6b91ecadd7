-- ===== src/Tests/Enrich.antt =====
-- The join and the aggregation on a small profile.
use codespine.Common.{ℕ, ◌≡◌, refl, List, [], ◌∷◌, codes, none, some, sum_by, get_or, arith}
use codespine.Common.Int.{pos, negsuc}
use codespine.Enrich.Profile.{ProfileNode, CpuProfileData, FrameSample, aggregate, total_samples}
use codespine.Enrich.Profile.Totals.{positive_time, aggregate-totals}
use codespine.Enrich.Join.{RuntimeCallEdge, join, join_call_edges, frame_ref}
use codespine.Enrich.Join.Resolve.{TargetNode, enclosing_node}
use codespine.Enrich.Join.Innermost.{IsInnermost, enclosing_node-IsInnermost}
use codespine.Enrich.Join.Conserved.{
  Balances, join-Balances, CallBalances, join_call_edges-CallBalances,
}
use codespine.Tests.Samples.{plain_paths, target}

abbrev nodes : List TargetNode
nodes = target "outer" 1 9 ∷ target "inner" 3 5 ∷ []

abbrev frame : ℕ → FrameSample
frame line = record {
  function_name = codes "";
  url = codes "a.ts";
  line = pos line;
  column = 0;
  samples = 2;
  self_micros = 7;
}

abbrev frames : List FrameSample
frames = frame 4 ∷ frame 20 ∷ []

enclosing_run : enclosing_node nodes (pos 4) ≡ some (target "inner" 3 5)
unfolding enclosing_node
enclosing_run = refl

enclosing_node-IsInnermost_example : IsInnermost (enclosing_node nodes (pos 4)) nodes 4
enclosing_node-IsInnermost_example = enclosing_node-IsInnermost nodes 4 (omega arith)

join-Balances_example : Balances frames (join plain_paths nodes frames (codes "/"))
join-Balances_example = join-Balances plain_paths nodes frames (codes "/")

abbrev call_edge : RuntimeCallEdge
call_edge = record { caller = frame_ref (frame 2); callee = frame_ref (frame 4); samples = 3 }

join_call_edges-CallBalances_example :
    CallBalances (call_edge ∷ []) (join_call_edges plain_paths nodes (call_edge ∷ []) (codes "/"))
join_call_edges-CallBalances_example =
    join_call_edges-CallBalances plain_paths nodes (call_edge ∷ []) (codes "/")

abbrev profile_node : ℕ → ProfileNode
profile_node id = record {
  id = id;
  call_frame = record {
    function_name = codes "f";
    url = codes "a.ts";
    line_number = negsuc 0;
    column_number = 0;
  };
  hit_count = none;
  children = none;
}

abbrev profile : CpuProfileData
profile = record {
  nodes = profile_node 1 ∷ profile_node 2 ∷ [];
  samples = some (1 ∷ 1 ∷ 2 ∷ []);
  time_deltas = some (pos 5 ∷ negsuc 3 ∷ pos 4 ∷ []);
}

aggregate-totals_example :
    (sum_by (λ f. f.samples) (aggregate profile) ≡ total_samples profile)
    × (sum_by (λ f. f.self_micros) (aggregate profile)
        ≡ positive_time (1 ∷ 1 ∷ 2 ∷ []) (get_or profile.time_deltas []))
aggregate-totals_example = aggregate-totals profile 1 (1 ∷ 2 ∷ []) refl (refl, (refl, (refl, tt)))
