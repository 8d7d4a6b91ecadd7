-- ===== src/Query/Clamp.antt =====
-- The clamps on what a caller asks for: `clampLimit`, `clampDepth` of src/query/graph_query.ts and
-- `clamp` of src/query/campaign_planner.ts. A finite number enters by its floor, all that they read.
use codespine.Common.{ℕ, ◌≤◌, ◌≡◌, Option, none, some, arith, ltb, if◌then◌else◌}
use codespine.Common.Int.{ℤ, pos, negsuc}

pub data JsNumber : Type 0 where
  not_finite : JsNumber
  finite : ℤ → JsNumber

-- KUZU_MAX_REL_BOUND
abbrev pub kuzu_max_rel_bound : ℕ
kuzu_max_rel_bound = 30

unfoldable pub clamp_limit : Option JsNumber → ℕ
clamp_limit none = 20
clamp_limit (some not_finite) = 20
clamp_limit (some (finite (negsuc n))) = 20
clamp_limit (some (finite (pos n))) = if ltb n 1 then 20 else if ltb 1000 n then 1000 else n

unfoldable pub clamp_depth : JsNumber → ℕ
clamp_depth not_finite = 5
clamp_depth (finite (negsuc n)) = 1
clamp_depth (finite (pos n)) =
    if ltb n 1 then 1 else if ltb kuzu_max_rel_bound n then kuzu_max_rel_bound else n

-- `CampaignPlanner.clamp`
unfoldable pub clamp : JsNumber → ℕ → ℕ → ℕ
clamp not_finite min max = min
clamp (finite (negsuc n)) min max = min
clamp (finite (pos n)) min max = if ltb n min then min else if ltb max n then max else n

-- Whatever the caller passes, the limit lies between 1 and 1000, and a number in that range is
-- taken as it is.
pub clamp_limit-bounds :
    (limit : Option JsNumber)
    → (1 ≤ clamp_limit limit)
      × (clamp_limit limit ≤ 1000)
      × ((n : ℕ) → limit ≡ some (finite (pos n)) → 1 ≤ n → n ≤ 1000 → clamp_limit limit ≡ n)
unfolding clamp_limit
clamp_limit-bounds limit = (bound limit, upper limit, λ n e p q. rw e (exact n p q))
  where
    bound : (l : Option JsNumber) → 1 ≤ clamp_limit l
    bound l = ground arith

    upper : (l : Option JsNumber) → clamp_limit l ≤ 1000
    upper l = ground arith

    exact : (n : ℕ) → 1 ≤ n → n ≤ 1000 → clamp_limit (some (finite (pos n))) ≡ n
    exact n p q = ground arith

-- The depth that `blastRadius` writes into its pattern lies between 1 and the bound that Kùzu
-- accepts, 30, and a depth in that range is taken as it is.
pub clamp_depth-bounds :
    (depth : JsNumber)
    → (1 ≤ clamp_depth depth)
      × (clamp_depth depth ≤ kuzu_max_rel_bound)
      × ((n : ℕ) → depth ≡ finite (pos n) → 1 ≤ n → n ≤ kuzu_max_rel_bound → clamp_depth depth ≡ n)
unfolding clamp_depth
clamp_depth-bounds depth = (bound depth, upper depth, λ n e p q. rw e (exact n p q))
  where
    bound : (d : JsNumber) → 1 ≤ clamp_depth d
    bound d = ground arith

    upper : (d : JsNumber) → clamp_depth d ≤ kuzu_max_rel_bound
    upper d = ground arith

    exact : (n : ℕ) → 1 ≤ n → n ≤ kuzu_max_rel_bound → clamp_depth (finite (pos n)) ≡ n
    exact n p q = ground arith

-- Between bounds in order, the planner's clamp answers within them, whatever it is given.
pub clamp-between :
    (value : JsNumber) (min max : ℕ)
    → min ≤ max
    → (min ≤ clamp value min max) × (clamp value min max ≤ max)
unfolding clamp
clamp-between value min max h = (ground arith, ground arith)
