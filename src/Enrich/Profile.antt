-- ===== src/Enrich/Profile.antt =====
-- src/enrich/cpu_profile.ts: the profile as the schema parses it, and `CpuProfile.aggregate` and
-- `totalSamples`. Ids, hit counts and columns are ℕ; a time delta and a line number are integers.
pub mod Totals
use codespine.Common.{
  ℕ, ◌+◌, Option, none, some, List, [], ◌∷◌, ◌++◌, Text, get_or, if◌then◌else◌, nat_beq, nat_key,
  length, ltb,
}
use codespine.Common.Int.{ℤ, pos, clip, increment}
use codespine.Common.JsMap
use codespine.Common.JsMap.{JsMap}

pub record CallFrame : Type 0 where
  pub function_name : Text
  pub url : Text
  pub line_number : ℤ
  pub column_number : ℕ

pub record ProfileNode : Type 0 where
  pub id : ℕ
  pub call_frame : CallFrame
  pub hit_count : Option ℕ
  pub children : Option (List ℕ)

pub record CpuProfileData : Type 0 where
  pub nodes : List ProfileNode
  pub samples : Option (List ℕ)
  pub time_deltas : Option (List ℤ)

pub record FrameSample : Type 0 where
  pub function_name : Text
  pub url : Text
  pub line : ℤ
  pub column : ℕ
  pub samples : ℕ
  pub self_micros : ℕ

-- `samplesByNode` and `microsByNode`.
pub record Tally : Type 0 where
  pub samples : JsMap ℕ ℕ
  pub micros : JsMap ℕ ℕ

-- `map.set(k, (map.get(k) ?? 0) + n)`
unfoldable pub bump : JsMap ℕ ℕ → ℕ → ℕ → JsMap ℕ ℕ
bump m k n = JsMap.set m k (get_or (JsMap.get m k) 0 + n)

-- `deltas[index] ?? 0`, of the deltas that are left.
abbrev pub next_delta : List ℤ → ℤ
next_delta [] = pos 0
next_delta (d ∷ ds) = d

abbrev pub rest_deltas : List ℤ → List ℤ
rest_deltas [] = []
rest_deltas (d ∷ ds) = ds

-- The loop over `samples`, with the deltas from the same index on.
unfoldable pub tally_ticks : Tally → List ℕ → List ℤ → Tally
unfolding bump
tally_ticks t [] ds = t
tally_ticks t (n ∷ ns) ds =
    tally_ticks
      (record { samples = bump t.samples n 1; micros = bump t.micros n (clip (next_delta ds)) }) ns
      (rest_deltas ds)

-- The loop over the nodes where the profile has no ticks.
unfoldable pub tally_hits : JsMap ℕ ℕ → List ProfileNode → JsMap ℕ ℕ
tally_hits m [] = m
tally_hits m (node ∷ nodes) =
    let hits = get_or node.hit_count 0 in
    tally_hits (if ltb 0 hits then JsMap.set m node.id hits else m) nodes

unfoldable pub tally : CpuProfileData → Tally
unfolding tally_ticks tally_hits
tally profile = elim (get_or profile.samples []) [
  | [] ↦ record { samples = tally_hits [] profile.nodes; micros = [] }
  | n ∷ ns ↦
      tally_ticks (record { samples = []; micros = [] }) (n ∷ ns) (get_or profile.time_deltas [])
]

unfoldable pub frame_of : ProfileNode → ℕ → ℕ → FrameSample
frame_of node samples micros = record {
  function_name = node.call_frame.function_name;
  url = node.call_frame.url;
  line = increment node.call_frame.line_number;
  column = node.call_frame.column_number;
  samples = samples;
  self_micros = micros;
}

-- The loop that pushes the frames.
unfoldable pub frames_of : Tally → List ProfileNode → List FrameSample
unfolding frame_of
frames_of t [] = []
frames_of t (node ∷ nodes) =
    let count = get_or (JsMap.get t.samples node.id) 0 in
    if nat_beq count 0
    then frames_of t nodes
    else frame_of node count (get_or (JsMap.get t.micros node.id) 0) ∷ frames_of t nodes

unfoldable pub aggregate : CpuProfileData → List FrameSample
unfolding tally frames_of
aggregate profile = frames_of (tally profile) profile.nodes

unfoldable pub sum_hits : List ProfileNode → ℕ
sum_hits [] = 0
sum_hits (node ∷ nodes) = get_or node.hit_count 0 + sum_hits nodes

unfoldable pub total_samples : CpuProfileData → ℕ
unfolding sum_hits
total_samples profile = elim (get_or profile.samples []) [
  | [] ↦ sum_hits profile.nodes
  | n ∷ ns ↦ length (n ∷ ns)
]
