-- ===== src/Enrich/Join.antt =====
-- src/enrich/runtime_join.ts: `RuntimeJoin.join` and `joinCallEdges`. Samples and microseconds are
-- ℕ: they are counts of ticks and sums of clipped integer deltas.
pub mod Resolve
pub mod Innermost
pub mod Conserved
use Prim.Native.Nat.{compare}
use codespine.Common.{
  ℕ, ◌+◌, Bool, true, false, ◌||◌, Option, none, some, List, [], ◌∷◌, ◌++◌, Text, codes, get_or,
  if◌then◌else◌, nat_beq, text_eq, text_key, length,
}
use codespine.Common.Int.{show_int}
use codespine.Common.Sort.{sort}
use codespine.Common.JsMap
use codespine.Common.JsMap.{JsMap, keys, values}
use codespine.Enrich.Profile.{FrameSample}
use Resolve.{
  TargetNode, FrameRef, MatchVia, by_name, by_range, DropReason, no_file, no_node, ambiguous,
  NodeResolution, resolved, unresolved, FileIndex, index_by_file, NodePath, resolve_in_index,
}

pub record Attribution : Type 0 where
  pub samples : ℕ
  pub self_micros : ℕ

pub record DroppedGroup : Type 0 where
  pub label : Text
  pub reason : DropReason
  pub samples : ℕ
  pub self_micros : ℕ

-- The variables of `join`.
pub record Joined : Type 0 where
  pub attributions : JsMap Text Attribution
  pub dropped : JsMap Text DroppedGroup
  pub matched_frames : ℕ
  pub matched_samples : ℕ
  pub matched_self_micros : ℕ
  pub matched_by_name : ℕ
  pub matched_by_range : ℕ
  pub dropped_frames : ℕ
  pub dropped_samples : ℕ
  pub dropped_self_micros : ℕ

abbrev pub nothing_joined : Joined
nothing_joined = record {
  attributions = [];
  dropped = [];
  matched_frames = 0;
  matched_samples = 0;
  matched_self_micros = 0;
  matched_by_name = 0;
  matched_by_range = 0;
  dropped_frames = 0;
  dropped_samples = 0;
  dropped_self_micros = 0;
}

unfoldable pub reason_name : DropReason → Text
reason_name no_file = codes "no-file"
reason_name no_node = codes "no-node"
reason_name ambiguous = codes "ambiguous"

unfoldable pub drop_label : FrameSample → DropReason → Text
drop_label frame reason =
    let name =
      if nat_beq (length frame.function_name) 0 then codes "(anonymous)" else frame.function_name in
    elim reason [
      | no_file ↦ if nat_beq (length frame.url) 0 then name else name ++ codes " " ++ frame.url
      | no_node ↦ name ++ codes " " ++ frame.url ++ codes ":" ++ show_int frame.line
      | ambiguous ↦ name ++ codes " " ++ frame.url ++ codes ":" ++ show_int frame.line
    ]

abbrev pub new_group : Text → DropReason → DroppedGroup
new_group label reason = record { label = label; reason = reason; samples = 0; self_micros = 0 }

abbrev pub grown : DroppedGroup → FrameSample → DroppedGroup
grown group frame = record group {
  samples = group.samples + frame.samples;
  self_micros = group.self_micros + frame.self_micros;
}

unfoldable pub record_drop :
    JsMap Text DroppedGroup → FrameSample → DropReason → JsMap Text DroppedGroup
unfolding drop_label reason_name
record_drop dropped frame reason =
    let label = drop_label frame reason in
    let key = reason_name reason ++ codes ":" ++ label in
    JsMap.set dropped key (grown (get_or (JsMap.get dropped key) (new_group label reason)) frame)

unfoldable pub drop_frame : Joined → FrameSample → DropReason → Joined
unfolding record_drop
drop_frame s frame reason = record s {
  dropped = record_drop s.dropped frame reason;
  dropped_frames = s.dropped_frames + 1;
  dropped_samples = s.dropped_samples + frame.samples;
  dropped_self_micros = s.dropped_self_micros + frame.self_micros;
}

abbrev pub no_attribution : Attribution
no_attribution = record { samples = 0; self_micros = 0 }

abbrev pub added : Attribution → FrameSample → Attribution
added current frame = record {
  samples = current.samples + frame.samples;
  self_micros = current.self_micros + frame.self_micros;
}

unfoldable pub attribute : JsMap Text Attribution → Text → FrameSample → JsMap Text Attribution
attribute m id frame = JsMap.set m id (added (get_or (JsMap.get m id) no_attribution) frame)

abbrev pub name_matched : MatchVia → ℕ
name_matched by_name = 1
name_matched by_range = 0

abbrev pub range_matched : MatchVia → ℕ
range_matched by_name = 0
range_matched by_range = 1

unfoldable pub match_frame : Joined → FrameSample → TargetNode → MatchVia → Joined
unfolding attribute
match_frame s frame node via = record s {
  attributions = attribute s.attributions node.id frame;
  matched_frames = s.matched_frames + 1;
  matched_samples = s.matched_samples + frame.samples;
  matched_self_micros = s.matched_self_micros + frame.self_micros;
  matched_by_name = s.matched_by_name + name_matched via;
  matched_by_range = s.matched_by_range + range_matched via;
}

abbrev pub frame_ref : FrameSample → FrameRef
frame_ref frame = record { function_name = frame.function_name; url = frame.url; line = frame.line }

unfoldable pub settle : Joined → FrameSample → NodeResolution → Joined
unfolding drop_frame match_frame
settle s frame (resolved node via) = match_frame s frame node via
settle s frame (unresolved reason) = drop_frame s frame reason

-- The body of the loop, and the loop. `resolve` is the resolution in the index of the nodes.
unfoldable pub join_loop : (FrameRef → NodeResolution) → Joined → List FrameSample → Joined
unfolding settle
join_loop resolve s [] = s
join_loop resolve s (frame ∷ frames) =
    join_loop resolve (settle s frame (resolve (frame_ref frame))) frames

pub record RuntimeEdge : Type 0 where
  pub from : Text
  pub to : Text
  pub samples : ℕ

pub record RuntimeCallEdge : Type 0 where
  pub caller : FrameRef
  pub callee : FrameRef
  pub samples : ℕ

-- The variables of `joinCallEdges`.
pub record CallJoined : Type 0 where
  pub aggregated : JsMap Text RuntimeEdge
  pub matched_edges : ℕ
  pub dropped_edges : ℕ
  pub dropped_samples : ℕ

abbrev pub no_calls_joined : CallJoined
no_calls_joined = record {
  aggregated = [];
  matched_edges = 0;
  dropped_edges = 0;
  dropped_samples = 0;
}

unfoldable pub drop_call : CallJoined → RuntimeCallEdge → CallJoined
drop_call s edge = record s {
  dropped_edges = s.dropped_edges + 1;
  dropped_samples = s.dropped_samples + edge.samples;
}

-- The entry under the key of a pair of nodes.
unfoldable pub aggregate_call : Option RuntimeEdge → Text → Text → ℕ → RuntimeEdge
aggregate_call none from to samples = record { from = from; to = to; samples = samples }
aggregate_call (some existing) from to samples = record existing {
  samples = existing.samples + samples;
}

unfoldable pub match_call : CallJoined → RuntimeCallEdge → Text → Text → CallJoined
unfolding aggregate_call
match_call s edge from to =
    let key = from ++ codes "->" ++ to in
    record s {
      aggregated =
          JsMap.set s.aggregated key
            (aggregate_call (JsMap.get s.aggregated key) from to edge.samples);
      matched_edges = s.matched_edges + 1;
    }

unfoldable pub settle_call :
    CallJoined → RuntimeCallEdge → NodeResolution → NodeResolution → CallJoined
unfolding drop_call match_call
settle_call s edge (unresolved r) to = drop_call s edge
settle_call s edge (resolved a via) (unresolved r) = drop_call s edge
settle_call s edge (resolved a via) (resolved b via') =
    if text_eq a.id b.id then drop_call s edge else match_call s edge a.id b.id

unfoldable pub join_calls_loop :
    (FrameRef → NodeResolution) → CallJoined → List RuntimeCallEdge → CallJoined
unfolding settle_call
join_calls_loop resolve s [] = s
join_calls_loop resolve s (edge ∷ edges) =
    join_calls_loop resolve (settle_call s edge (resolve edge.caller) (resolve edge.callee)) edges

module _ (p : NodePath) where
  -- The resolution of a frame among `nodes`, under the project root.
  unfoldable pub resolve_among : List TargetNode → Text → FrameRef → NodeResolution
  unfolding index_by_file resolve_in_index
  resolve_among nodes root frame =
      let by_file = index_by_file nodes in resolve_in_index p frame by_file (keys by_file) root

  unfoldable pub join : List TargetNode → List FrameSample → Text → Joined
  unfolding join_loop resolve_among
  join nodes frames root = join_loop (resolve_among nodes root) nothing_joined frames

  unfoldable pub join_call_edges : List TargetNode → List RuntimeCallEdge → Text → CallJoined
  unfolding join_calls_loop resolve_among
  join_call_edges nodes edges root =
      join_calls_loop (resolve_among nodes root) no_calls_joined edges

-- The `dropped` of the result: the groups by self time, the largest first.
unfoldable pub dropped_groups : Joined → List DroppedGroup
unfolding sort
dropped_groups s = sort (λ a b. compare b.self_micros a.self_micros) (values s.dropped)
