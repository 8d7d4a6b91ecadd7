-- ===== src/Enrich/Profile/Totals.antt =====
-- `CpuProfile.aggregate` loses no tick: the samples of its frames add up to `totalSamples`, and
-- their self time to the positive time deltas.
use codespine.Common.{
  ℕ, ◌+◌, ◌*◌, ◌≡◌, refl, ◌∙◌, some, List, [], ◌∷◌, arith, get_or, All, sum_by, length, nat_beq,
  nat_beq_iff, if◌then◌else◌, nat_key,
}
use codespine.Common.Int.{ℤ, clip}
use codespine.Common.JsMap
use codespine.Common.JsMap.{JsMap, get-set}
use codespine.Enrich.Profile.{
  ProfileNode, CpuProfileData, Tally, bump, next_delta, rest_deltas, tally_ticks, frames_of,
  aggregate, total_samples,
}

-- The nodes of a profile that have the id.
abbrev pub node_count : ℕ → List ProfileNode → ℕ
node_count k [] = 0
node_count k (n ∷ ns) = (if nat_beq n.id k then 1 else 0) + node_count k ns

-- What a map holds under the ids of the nodes, added up.
abbrev held : JsMap ℕ ℕ → List ProfileNode → ℕ
held m [] = 0
held m (n ∷ ns) = get_or (JsMap.get m n.id) 0 + held m ns

get-bump :
    (m : JsMap ℕ ℕ) (k j n : ℕ)
    → get_or (JsMap.get (bump m k n) j) 0
      ≡ get_or (JsMap.get m j) 0 + (if nat_beq j k then n else 0)
unfolding bump
get-bump m k j n =
    ground (arith, get-set m k j (get_or (JsMap.get m k) 0 + n), nat_beq_iff j k, nat_beq_iff k j)

held-bump :
    (m : JsMap ℕ ℕ) (k n : ℕ) (ns : List ProfileNode)
    → held (bump m k n) ns ≡ held m ns + n * node_count k ns
held-bump m k n [] = omega arith
held-bump m k n (x ∷ ns) = ground (arith, held-bump m k n ns, get-bump m k x.id n)

-- Each tick's id belongs to exactly one node.
abbrev pub OneNodeEach : List ℕ → List ProfileNode → Type 0
OneNodeEach ks nodes = All (λ k. node_count k nodes ≡ 1) ks

-- The deltas that the ticks consume, the negative ones counted as 0.
abbrev pub positive_time : List ℕ → List ℤ → ℕ
positive_time [] ds = 0
positive_time (k ∷ ks) ds = clip (next_delta ds) + positive_time ks (rest_deltas ds)

held-tally_ticks :
    (ks : List ℕ) (ds : List ℤ) (t : Tally) (nodes : List ProfileNode)
    → OneNodeEach ks nodes
    → (held (tally_ticks t ks ds).samples nodes ≡ held t.samples nodes + length ks)
      × (held (tally_ticks t ks ds).micros nodes ≡ held t.micros nodes + positive_time ks ds)
unfolding tally_ticks
held-tally_ticks [] ds t nodes h = (omega arith, omega arith)
held-tally_ticks (k ∷ ks) ds t nodes h =
    let t' : Tally = record {
      samples = bump t.samples k 1;
      micros = bump t.micros k (clip (next_delta ds));
    } in
    let (p, q) = held-tally_ticks ks (rest_deltas ds) t' nodes h.1 in
    let s : 1 * node_count k nodes ≡ 1 = rw h.0 in
    let u : clip (next_delta ds) * node_count k nodes ≡ clip (next_delta ds) =
      rw h.0 (omega arith) in
    (
      omega (arith, p, s, held-bump t.samples k 1 nodes),
      omega (arith, q, u, held-bump t.micros k (clip (next_delta ds)) nodes),
    )

-- A node without samples has no self time.
abbrev NoTimeWithoutSamples : Tally → Type 0
NoTimeWithoutSamples t =
    (k : ℕ) → get_or (JsMap.get t.samples k) 0 ≡ 0 → get_or (JsMap.get t.micros k) 0 ≡ 0

tally_ticks-NoTime :
    (ks : List ℕ) (ds : List ℤ) (t : Tally)
    → NoTimeWithoutSamples t
    → NoTimeWithoutSamples (tally_ticks t ks ds)
unfolding tally_ticks
tally_ticks-NoTime [] ds t h = h
tally_ticks-NoTime (k ∷ ks) ds t h = tally_ticks-NoTime ks (rest_deltas ds) _ λ j e.
    ground (arith, h j, get-bump t.samples k j 1, get-bump t.micros k j (clip (next_delta ds)))

sums-frames_of :
    (t : Tally) (nodes : List ProfileNode)
    → NoTimeWithoutSamples t
    → (sum_by (λ f. f.samples) (frames_of t nodes) ≡ held t.samples nodes)
      × (sum_by (λ f. f.self_micros) (frames_of t nodes) ≡ held t.micros nodes)
unfolding frames_of
sums-frames_of t [] h = (refl, refl)
sums-frames_of t (n ∷ ns) h = ground (arith, h n.id, sums-frames_of t ns h)

held-empty : (nodes : List ProfileNode) → held [] nodes ≡ 0
unfolding JsMap.get
held-empty [] = refl
held-empty (n ∷ ns) = omega (arith, held-empty ns)

-- Where every tick's id belongs to exactly one node of the profile, the frames that `aggregate`
-- returns carry all ticks, `totalSamples` of them, and all the positive time of the deltas that
-- stand against a tick: a negative or missing delta counts as none, and a delta beyond the ticks
-- is not read.
pub aggregate-totals :
    (profile : CpuProfileData) (k : ℕ) (ks : List ℕ)
    → profile.samples ≡ some (k ∷ ks)
    → OneNodeEach (k ∷ ks) profile.nodes
    → (sum_by (λ f. f.samples) (aggregate profile) ≡ total_samples profile)
      × (sum_by (λ f. f.self_micros) (aggregate profile)
          ≡ positive_time (k ∷ ks) (get_or profile.time_deltas []))
unfolding aggregate total_samples
aggregate-totals profile k ks e h =
    let ds = get_or profile.time_deltas [] in
    let start : Tally = record { samples = []; micros = [] } in
    let t = tally_ticks start (k ∷ ks) ds in
    let (p, q) = held-tally_ticks (k ∷ ks) ds start profile.nodes h in
    let (a, b) =
      sums-frames_of t profile.nodes
        (tally_ticks-NoTime (k ∷ ks) ds start (λ j e. unfold JsMap.get in refl)) in
    rw e (
      a ∙ p ∙ omega (arith, held-empty profile.nodes),
      b ∙ q ∙ omega (arith, held-empty profile.nodes),
    )
