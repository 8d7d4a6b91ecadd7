-- ===== src/Query/Components/Ends.antt =====
-- Tarjan's loops end within their fuel, for every list of successors, ids out of range included.
use codespine.Common.{
  ℕ, zero, suc, ◌+◌, ◌-◌, ◌≤◌, ◌<◌, ◌≡◌, refl, ap, true, false, Option, none, some, List, [], ◌∙◌,
  length-set, ◌∷◌, arith, get_or, length, get_elem?, set, map, Bool-cases, Option-cases, inl, inr,
}
use codespine.Query.Components.{
  Graph, Tarjan, discover, is_undiscovered, lower, back_edge, pop_component, close, finish, follow,
  round, work_loop, work_fuel, start_loop, initial, strongly_connected_components, lowlink_of,
}

abbrev degree : Graph → ℕ → ℕ
degree g v = length (get_or (get_elem? g v) [])

-- The nodes without an index, each with its edges.
abbrev unseen : List (Option ℕ) → Graph → ℕ
unseen [] g = 0
unseen (i ∷ is) [] = 0
unseen (none ∷ is) (succ ∷ g) = suc (length succ) + unseen is g
unseen (some k ∷ is) (succ ∷ g) = unseen is g

-- The rounds that the work stack still takes.
abbrev queued : Graph → List (ℕ × ℕ) → ℕ
queued g [] = 0
queued g ((v, p) ∷ w) = suc (degree g v - p) + queued g w

unseen-set :
    (is : List (Option ℕ)) (g : Graph) (v k : ℕ)
    → get_elem? is v ≡ some none
    → length is ≡ length g
    → unseen (set is v (some k)) g + suc (degree g v) ≡ unseen is g
unseen-set [] g v k h l = cc
unseen-set (i ∷ is) [] v k h l = absurd (omega arith)
unseen-set (none ∷ is) (succ ∷ g) zero k h l = omega arith
unseen-set (some j ∷ is) (succ ∷ g) zero k h l = cc
unseen-set (none ∷ is) (succ ∷ g) (suc v) k h l = omega (arith, unseen-set is g v k h)
unseen-set (some j ∷ is) (succ ∷ g) (suc v) k h l = omega (arith, unseen-set is g v k h)

get_elem?-lt {ℓ} :
    {A : Type ℓ} (xs : List A) (p : ℕ) (x : A) → get_elem? xs p ≡ some x → p < length xs
get_elem?-lt [] p x h = cc
get_elem?-lt (y ∷ xs) zero x h = omega arith
get_elem?-lt (y ∷ xs) (suc p) x h = omega (arith, get_elem?-lt xs p x h)

pub undiscovered_entry :
    (s : Tarjan) (v : ℕ) → is_undiscovered s v ≡ true → get_elem? s.index v ≡ some none
unfolding is_undiscovered
undiscovered_entry s v h = ground arith

pub lower-index :
    (node low : ℕ) (s : Tarjan)
    → ((lower node low s).index ≡ s.index) × ((lower node low s).work ≡ s.work)
unfolding lower
lower-index node low s = ground arith

pub back_edge-index :
    (node next : ℕ) (s : Tarjan)
    → ((back_edge node next s).index ≡ s.index) × ((back_edge node next s).work ≡ s.work)
unfolding back_edge
back_edge-index node next s = ground arith

pub pop_component-index :
    (node : ℕ) (stack : List ℕ) (s : Tarjan) → (pop_component node stack s).index ≡ s.index
unfolding pop_component
pop_component-index node [] s = refl
pop_component-index node (member ∷ stack) s = ground (
  arith,
  pop_component-index node stack (record s {
    scc_stack = stack;
    on_stack = set s.on_stack member false;
    component_of = set s.component_of member (some s.component_count);
  }),
)

pub close-index : (node : ℕ) (s : Tarjan) → (close node s).index ≡ s.index
unfolding close
close-index node s = ground (arith, pop_component-index node s.scc_stack s)

finish-index :
    (node : ℕ) (rest : List (ℕ × ℕ)) (s : Tarjan)
    → ((finish node rest s).index ≡ s.index) × ((finish node rest s).work ≡ rest)
unfolding finish
finish-index node [] s = (close-index node s, refl)
finish-index node ((parent, p) ∷ r) s =
    let s' = record (close node s) { work = (parent, p) ∷ r } in
    let h = lower-index parent (lowlink_of s' node) s' in (h.0 ∙ close-index node s, h.1)

abbrev remaining : Graph → Tarjan → ℕ
remaining g s = unseen s.index g + queued g s.work

discover_steps :
    (g : Graph) (v : ℕ) (s : Tarjan)
    → length s.index ≡ length g
    → is_undiscovered s v ≡ true
    → (length (discover v s).index ≡ length g) × (remaining g (discover v s) ≡ remaining g s)
unfolding discover
discover_steps g v s l h =
    let e = unseen-set s.index g v s.counter (undiscovered_entry s v h) l in
    (length-set s.index v (some s.counter) ∙ l, omega (arith, e))

follow_steps :
    (g : Graph) (node next : ℕ) (s : Tarjan)
    → length s.index ≡ length g
    → (length (follow node next s).index ≡ length g)
      × (remaining g (follow node next s) ≡ remaining g s)
unfolding follow
follow_steps g node next s l = elim (Bool-cases (is_undiscovered s next)) [
  | inl t ↦ rw (t, follow) (discover_steps g next s l t)
  | inr f ↦
      let h = back_edge-index node next s in rw (f, follow) (ap length h.0 ∙ l, rw (h.0, h.1) refl)
]

round_steps :
    (g : Graph) (node p : ℕ) (rest : List (ℕ × ℕ)) (s : Tarjan)
    → length s.index ≡ length g
    → s.work ≡ (node, p) ∷ rest
    → (length (round g node p rest s).index ≡ length g)
      × (suc (remaining g (round g node p rest s)) ≤ remaining g s)
unfolding round
round_steps g node p rest s l w = elim (Option-cases (get_elem? (get_or (get_elem? g node) []) p)) [
  | inl n ↦
      let h = finish-index node rest s in
      rw (n, round) (ap length h.0 ∙ l, rw (h.0, h.1, w) (omega arith))
  | inr (next, e) ↦
      let s' = record s { work = (node, p + 1) ∷ rest } in
      let h = follow_steps g node next s' l in
      rw (e, round)
        (h.0, rw (h.1, w) (omega (arith, get_elem?-lt (get_or (get_elem? g node) []) p next e)))
]

-- What a run of the work loop leaves: an entry for each node and an empty stack.
record IsIdle (g : Graph) (s : Tarjan) : Type 0 where
  size : length s.index ≡ length g
  empty : s.work ≡ []

work_loop_ends :
    (g : Graph) (fuel : ℕ) (ws : List (ℕ × ℕ)) (s : Tarjan)
    → s.work ≡ ws
    → length s.index ≡ length g
    → remaining g s ≤ fuel
    → (s' : Tarjan) × ((work_loop g fuel ws s ≡ some s') × IsIdle g s')
unfolding work_loop
work_loop_ends g zero [] s w l m = (s, (refl, record { size = l; empty = w }))
work_loop_ends g (suc fuel) [] s w l m = (s, (refl, record { size = l; empty = w }))
work_loop_ends g zero ((v, p) ∷ ws) s w l m = absurd (omega (arith, m, ap (queued g) w))
work_loop_ends g (suc fuel) ((v, p) ∷ ws) s w l m =
    let s' = round g v p ws s in
    let h = round_steps g v p ws s l w in
    work_loop_ends g fuel s'.work s' refl h.0 (omega (arith, h.1, m))

unseen_le : (is : List (Option ℕ)) (g : Graph) → unseen is g ≤ work_fuel g
unseen_le [] g = omega arith
unseen_le (i ∷ is) [] = omega arith
unseen_le (none ∷ is) (succ ∷ g) = omega (arith, unseen_le is g)
unseen_le (some k ∷ is) (succ ∷ g) = omega (arith, unseen_le is g)

start_loop_ends :
    (g : Graph) (n start : ℕ) (s : Tarjan)
    → IsIdle g s
    → (s' : Tarjan) × ((start_loop g n start s ≡ some s') × IsIdle g s')
unfolding start_loop
start_loop_ends g zero start s i = (s, (refl, i))
start_loop_ends g (suc n) start s i = elim (Bool-cases (is_undiscovered s start)) [
  | inr f ↦ rw (f, start_loop) (start_loop_ends g n (start + 1) s i)
  | inl t ↦
      let d = discover start s in
      let h = discover_steps g start s i.size t in
      let m : remaining g s ≤ work_fuel g = rw i.empty (omega (arith, unseen_le s.index g)) in
      let (s', (e, i')) =
        work_loop_ends g (work_fuel g) d.work d refl h.0 (omega (arith, m, h.1)) in
      rw (t, e, start_loop) (start_loop_ends g n (start + 1) s' i')
]

length-initial : (g : Graph) → length (map {B = Option ℕ} (λ _. none) g) ≡ length g
length-initial [] = refl
length-initial (x ∷ g) = ap suc (length-initial g)

-- For every list of successors, ids out of range included, both loops of
-- stronglyConnectedComponents end within their fuel; at the end no node is left on the work stack
-- and the indices still have one entry for each node.
pub strongly_connected_components_ends :
    (g : Graph)
    → (s : Tarjan) × ((strongly_connected_components g ≡ some s)
        × ((s.work ≡ []) × (length s.index ≡ length g)))
unfolding strongly_connected_components
strongly_connected_components_ends g =
    let (s, (e, i)) =
      start_loop_ends g (length g) 0 (initial g)
        (record { size = length-initial g; empty = refl }) in
    (s, (e, (i.empty, i.size)))
