-- ===== src/Enrich/Join/Conserved.antt =====
-- What the join conserves: every frame's samples and self time are attributed once or dropped once.
use codespine.Common.{
  ℕ, suc, ◌+◌, ◌≤◌, ◌≡◌, ◌∙◌, length-append, sum_by-append, append_cons, refl, List, [], ◌∷◌, arith,
  Text, codes, sum_by, length, text_key, ◌++◌, text_eq, Bool-cases, inl, inr,
}
use mathlib.Core.List.{append-nil}
use codespine.Common.JsMap
use codespine.Common.JsMap.{JsMap, sum_by-set, sum_by-set_more, length-set_le, values}
use codespine.Common.Sort.{sort-sum_by}
use codespine.Enrich.Profile.{FrameSample}
use codespine.Enrich.Join.{
  Attribution, DroppedGroup, Joined, nothing_joined, drop_label, new_group, record_drop,
  no_attribution, attribute, frame_ref, settle, join_loop, join, RuntimeEdge, RuntimeCallEdge,
  CallJoined, no_calls_joined, join_calls_loop, settle_call, match_call, aggregate_call,
  join_call_edges, dropped_groups, resolve_among,
}
use codespine.Enrich.Join.Resolve.{
  TargetNode, FrameRef, NodePath, NodeResolution, resolved, unresolved, DropReason, by_name,
  by_range,
}

abbrev group_samples : DroppedGroup → ℕ
group_samples g = g.samples

abbrev group_micros : DroppedGroup → ℕ
group_micros g = g.self_micros

abbrev node_samples : Attribution → ℕ
node_samples a = a.samples

abbrev node_micros : Attribution → ℕ
node_micros a = a.self_micros

-- The books balance after the frames `frames`.
pub record Balances (frames : List FrameSample) (s : Joined) : Type 0 where
  pub frames_split : s.matched_frames + s.dropped_frames ≡ length frames
  pub samples_split : s.matched_samples + s.dropped_samples ≡ sum_by (λ f. f.samples) frames
  pub micros_split :
      s.matched_self_micros + s.dropped_self_micros ≡ sum_by (λ f. f.self_micros) frames
  pub via_split : s.matched_by_name + s.matched_by_range ≡ s.matched_frames
  pub attributed_samples : sum_by node_samples (values s.attributions) ≡ s.matched_samples
  pub attributed_micros : sum_by node_micros (values s.attributions) ≡ s.matched_self_micros
  pub grouped_samples : sum_by group_samples (values s.dropped) ≡ s.dropped_samples
  pub grouped_micros : sum_by group_micros (values s.dropped) ≡ s.dropped_self_micros

-- One more frame moves the books by that frame.
record Moves (f : FrameSample) (s t : Joined) : Type 0 where
  frames_split : t.matched_frames + t.dropped_frames ≡ s.matched_frames + s.dropped_frames + 1
  samples_split :
      t.matched_samples + t.dropped_samples ≡ s.matched_samples + s.dropped_samples + f.samples
  micros_split :
      t.matched_self_micros + t.dropped_self_micros
      ≡ s.matched_self_micros + s.dropped_self_micros + f.self_micros
  via_split :
      t.matched_by_name + t.matched_by_range + s.matched_frames
      ≡ s.matched_by_name + s.matched_by_range + t.matched_frames
  attributed_samples :
      sum_by node_samples (values t.attributions) + s.matched_samples
      ≡ sum_by node_samples (values s.attributions) + t.matched_samples
  attributed_micros :
      sum_by node_micros (values t.attributions) + s.matched_self_micros
      ≡ sum_by node_micros (values s.attributions) + t.matched_self_micros
  grouped_samples :
      sum_by group_samples (values t.dropped) + s.dropped_samples
      ≡ sum_by group_samples (values s.dropped) + t.dropped_samples
  grouped_micros :
      sum_by group_micros (values t.dropped) + s.dropped_self_micros
      ≡ sum_by group_micros (values s.dropped) + t.dropped_self_micros

attribute-samples :
    (m : JsMap Text Attribution) (id : Text) (f : FrameSample)
    → sum_by node_samples (values (attribute m id f)) ≡ sum_by node_samples (values m) + f.samples
unfolding attribute
attribute-samples m id f = sum_by-set_more node_samples m id no_attribution _ f.samples refl refl

attribute-micros :
    (m : JsMap Text Attribution) (id : Text) (f : FrameSample)
    → sum_by node_micros (values (attribute m id f)) ≡ sum_by node_micros (values m) + f.self_micros
unfolding attribute
attribute-micros m id f = sum_by-set_more node_micros m id no_attribution _ f.self_micros refl refl

record_drop-samples :
    (m : JsMap Text DroppedGroup) (f : FrameSample) (r : DropReason)
    → sum_by group_samples (values (record_drop m f r))
      ≡ sum_by group_samples (values m) + f.samples
unfolding record_drop
record_drop-samples m f r =
    sum_by-set_more group_samples m _ (new_group (drop_label f r) r) _ f.samples refl refl

record_drop-micros :
    (m : JsMap Text DroppedGroup) (f : FrameSample) (r : DropReason)
    → sum_by group_micros (values (record_drop m f r))
      ≡ sum_by group_micros (values m) + f.self_micros
unfolding record_drop
record_drop-micros m f r =
    sum_by-set_more group_micros m _ (new_group (drop_label f r) r) _ f.self_micros refl refl

settle-Moves : (s : Joined) (f : FrameSample) (r : NodeResolution) → Moves f s (settle s f r)
unfolding settle
settle-Moves s f (resolved node by_name) =
    omega
      (arith, attribute-samples s.attributions node.id f, attribute-micros s.attributions node.id f)
settle-Moves s f (resolved node by_range) =
    omega
      (arith, attribute-samples s.attributions node.id f, attribute-micros s.attributions node.id f)
settle-Moves s f (unresolved r) =
    omega (arith, record_drop-samples s.dropped f r, record_drop-micros s.dropped f r)

-- `Balances`, for books that were opened with what `s` holds.
join_loop-Balances :
    (resolve : FrameRef → NodeResolution) (s : Joined) (before frames : List FrameSample)
    → Balances before s
    → Balances (before ++ frames) (join_loop resolve s frames)
unfolding join_loop
join_loop-Balances resolve s before [] b = rw (append-nil before) b
join_loop-Balances resolve s before (f ∷ fs) b =
    let r = resolve (frame_ref f) in
    let m = settle-Moves s f r in
    rw (append_cons before f fs) (
      join_loop-Balances resolve (settle s f r) (before ++ f ∷ []) fs (
        omega (
          arith,
          length-append before (f ∷ []),
          sum_by-append (λ (g : FrameSample). g.samples) before (f ∷ []),
          sum_by-append (λ (g : FrameSample). g.self_micros) before (f ∷ []),
        )))

-- Whatever the graph and the frames, `join` accounts for every frame exactly once: the matched and
-- the dropped frames, samples and microseconds add up to the input's; every match is by name or by
-- range; and the attributions and the groups of dropped frames sum to the matched and the dropped
-- samples and microseconds.
pub join-Balances :
    (p : NodePath) (nodes : List TargetNode) (frames : List FrameSample) (root : Text)
    → Balances frames (join p nodes frames root)
unfolding join
join-Balances p nodes frames root =
    join_loop-Balances (resolve_among p nodes root) nothing_joined [] frames (omega arith)

-- The reported groups are the recorded ones: sorting loses no dropped sample and no microsecond.
pub dropped_groups-sums :
    (p : NodePath) (nodes : List TargetNode) (frames : List FrameSample) (root : Text)
    → (sum_by group_samples (dropped_groups (join p nodes frames root))
        ≡ (join p nodes frames root).dropped_samples)
      × (sum_by group_micros (dropped_groups (join p nodes frames root))
          ≡ (join p nodes frames root).dropped_self_micros)
unfolding dropped_groups
dropped_groups-sums p nodes frames root =
    let s = join p nodes frames root in
    let b = join-Balances p nodes frames root in
    (
      sort-sum_by _ group_samples (values s.dropped) ∙ b.grouped_samples,
      sort-sum_by _ group_micros (values s.dropped) ∙ b.grouped_micros,
    )

abbrev edge_samples : RuntimeEdge → ℕ
edge_samples e = e.samples

-- The books of `joinCallEdges`.
pub record CallBalances (edges : List RuntimeCallEdge) (s : CallJoined) : Type 0 where
  pub edges_split : s.matched_edges + s.dropped_edges ≡ length edges
  pub samples_split :
      sum_by edge_samples (values s.aggregated) + s.dropped_samples ≡ sum_by (λ e. e.samples) edges
  pub no_more_edges : length s.aggregated ≤ s.matched_edges

match_call-sum :
    (s : CallJoined) (e : RuntimeCallEdge) (a b : Text)
    → sum_by edge_samples (values (match_call s e a b).aggregated)
      ≡ sum_by edge_samples (values s.aggregated) + e.samples
unfolding match_call
match_call-sum s e a b =
    let key = a ++ codes "->" ++ b in
    let old = JsMap.get s.aggregated key in
    ground (arith, sum_by-set edge_samples s.aggregated key (aggregate_call old a b e.samples))

match_call-length :
    (s : CallJoined) (e : RuntimeCallEdge) (a b : Text)
    → length (match_call s e a b).aggregated ≤ suc (length s.aggregated)
unfolding match_call
match_call-length s e a b = length-set_le s.aggregated (a ++ codes "->" ++ b) _

settle_call-CallBalances :
    (s : CallJoined) (e : RuntimeCallEdge) (before : List RuntimeCallEdge) (r t : NodeResolution)
    → CallBalances before s
    → CallBalances (before ++ e ∷ []) (settle_call s e r t)
unfolding settle_call
settle_call-CallBalances s e before (unresolved x) t b = omega (
  arith,
  length-append before (e ∷ []),
  sum_by-append (λ (g : RuntimeCallEdge). g.samples) before (e ∷ []),
)
settle_call-CallBalances s e before (resolved x v) (unresolved y) b = omega (
  arith,
  length-append before (e ∷ []),
  sum_by-append (λ (g : RuntimeCallEdge). g.samples) before (e ∷ []),
)
settle_call-CallBalances s e before (resolved x v) (resolved y w) b =
    elim (Bool-cases (text_eq x.id y.id)) [
      | inl p ↦ rw p (
          omega (
            arith,
            length-append before (e ∷ []),
            sum_by-append (λ (g : RuntimeCallEdge). g.samples) before (e ∷ []),
          ))
      | inr q ↦ rw q (
          omega (
            arith,
            match_call-sum s e x.id y.id,
            match_call-length s e x.id y.id,
            length-append before (e ∷ []),
            sum_by-append (λ (g : RuntimeCallEdge). g.samples) before (e ∷ []),
          ))
    ]

join_calls_loop-CallBalances :
    (resolve : FrameRef → NodeResolution) (s : CallJoined) (before edges : List RuntimeCallEdge)
    → CallBalances before s
    → CallBalances (before ++ edges) (join_calls_loop resolve s edges)
unfolding join_calls_loop
join_calls_loop-CallBalances resolve s before [] b = rw (append-nil before) b
join_calls_loop-CallBalances resolve s before (e ∷ es) b =
    let r = resolve e.caller in
    let t = resolve e.callee in
    rw (append_cons before e es) (
      join_calls_loop-CallBalances resolve (settle_call s e r t) (before ++ e ∷ []) es
        (settle_call-CallBalances s e before r t b))

-- `joinCallEdges` drops or aggregates every call of the profile's tree: matched and dropped calls
-- add up to the input, the samples on the resulting edges and the dropped samples add up to the
-- input's, and there are at most as many resulting edges as matched calls.
pub join_call_edges-CallBalances :
    (p : NodePath) (nodes : List TargetNode) (edges : List RuntimeCallEdge) (root : Text)
    → CallBalances edges (join_call_edges p nodes edges root)
unfolding join_call_edges
join_call_edges-CallBalances p nodes edges root =
    join_calls_loop-CallBalances (resolve_among p nodes root) no_calls_joined [] edges (omega arith)
