-- ===== src/Query/Radius/Reach.antt =====
-- The walk ends within its fuel.
use codespine.Common.{
  ℕ, zero, suc, ◌+◌, ◌≤◌, ◌≡◌, refl, ap, inl, inr, true, false, some, List, [], ◌∷◌, ◌++◌, arith,
  Text, if◌then◌else◌, includes, text_key, text_eq, text_eq_iff, length, sum_by, Bool-cases,
}
use codespine.Common.JsMap
use codespine.Common.JsMap.{JsMap}
use codespine.Query.Radius.{Callers, callers_of, push_unvisited, walk, walk_fuel, ancestors}

pub includes-append_one :
    (xs : List Text) (y a : Text)
    → includes (xs ++ y ∷ []) a ≡ (if includes xs a then true else text_eq y a)
unfolding includes
includes-append_one [] y a = ground arith
includes-append_one (x ∷ xs) y a = ground (arith, includes-append_one xs y a)

-- The callers that may still be pushed: those of ids that are not visited.
abbrev pending : List Text → Callers → ℕ
pending visited [] = 0
pending visited ((k, b) ∷ m) = (if includes visited k then 0 else length b) + pending visited m

length-push_unvisited :
    (v ns st : List Text) → length (push_unvisited v ns st) ≤ length ns + length st
unfolding push_unvisited
length-push_unvisited v [] st = omega arith
length-push_unvisited v (n ∷ ns) st =
    ground (arith, length-push_unvisited v ns (if includes v n then st else n ∷ st))

pending-le : (v : List Text) (id : Text) (m : Callers) → pending (v ++ id ∷ []) m ≤ pending v m
pending-le v id [] = omega arith
pending-le v id ((k, b) ∷ m) = ground (arith, pending-le v id m, includes-append_one v id k)

-- Visiting an id takes its bucket off what is pending.
pending-visit :
    (v : List Text) (id : Text) (m : Callers)
    → includes v id ≡ false
    → pending (v ++ id ∷ []) m + length (callers_of m id) ≤ pending v m
unfolding JsMap.get
pending-visit v id [] h = omega arith
pending-visit v id ((k, b) ∷ m) h = elim (Bool-cases (text_eq k id)) [
  | inl p ↦
      let e : k ≡ id = (text_eq_iff k id).0 p in
      rw p (
        ground (
          arith,
          pending-le v id m,
          includes-append_one v id k,
          text_eq_iff id k,
          ap (includes v) e,
        ))
  | inr q ↦ rw q (
      ground (
        arith,
        pending-visit v id m h,
        includes-append_one v id k,
        text_eq_iff id k,
        text_eq_iff k id,
      ))
]

pub walk_ends :
    (m : Callers) (fuel : ℕ) (v st : List Text)
    → pending v m + length st ≤ fuel
    → (r : List Text) × (walk m fuel v st ≡ some r)
unfolding walk
walk_ends m zero v [] h = (v, refl)
walk_ends m zero v (id ∷ st) h = absurd (omega arith)
walk_ends m (suc fuel) v [] h = (v, refl)
walk_ends m (suc fuel) v (id ∷ st) h = elim (Bool-cases (includes v id)) [
  | inl old ↦ rw (old, walk) (walk_ends m fuel v st (omega arith))
  | inr new ↦
      rw (new, walk)
        (walk_ends m fuel (v ++ id ∷ []) (push_unvisited (v ++ id ∷ []) (callers_of m id) st) (
          omega (
            arith,
            pending-visit v id m new,
            length-push_unvisited (v ++ id ∷ []) (callers_of m id) st,
          )))
]

pending-empty : (m : Callers) → pending [] m ≡ sum_by (λ e. length e.1) m
unfolding includes
pending-empty [] = refl
pending-empty ((k, b) ∷ m) = omega (arith, pending-empty m)

length-callers_of :
    (m : Callers) (id : Text) → length (callers_of m id) ≤ sum_by (λ e. length e.1) m
unfolding JsMap.get
length-callers_of [] id = omega arith
length-callers_of ((k, b) ∷ m) id = ground (arith, length-callers_of m id)

-- Whatever the call graph, cyclic or not, the walk over the callers of a node ends.
pub ancestors_end : (start : Text) (m : Callers) → (r : List Text) × (ancestors start m ≡ some r)
unfolding ancestors
ancestors_end start m = walk_ends m (walk_fuel m) [] (push_unvisited [] (callers_of m start) []) (
    omega (
      arith,
      pending-empty m,
      length-callers_of m start,
      length-push_unvisited [] (callers_of m start) [],
    ))
