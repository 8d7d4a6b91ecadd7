-- ===== src/Query/Components/Sizes.antt =====
-- `componentOf` keeps an entry for each node.
use codespine.Common.{
  ℕ, zero, suc, ◌+◌, ◌≡◌, refl, ◌∙◌, ap, true, false, Option, none, some, List, [], ◌∷◌, arith,
  get_or, length, length-set, get_elem?, set, map, Bool-cases, Option-cases, inl, inr,
}
use codespine.Query.Components.{
  Graph, Tarjan, discover, is_undiscovered, lower, back_edge, pop_component, close, finish, follow,
  round, work_loop, work_fuel, start_loop, initial, strongly_connected_components, lowlink_of,
}

abbrev size : Tarjan → ℕ
size s = length s.component_of

size-lower : (node low : ℕ) (s : Tarjan) → size (lower node low s) ≡ size s
unfolding lower
size-lower node low s = ground arith

size-back_edge : (node next : ℕ) (s : Tarjan) → size (back_edge node next s) ≡ size s
unfolding back_edge
size-back_edge node next s = ground arith

size-pop_component :
    (node : ℕ) (stack : List ℕ) (s : Tarjan) → size (pop_component node stack s) ≡ size s
unfolding pop_component
size-pop_component node [] s = length-set s.component_of node (some s.component_count)
size-pop_component node (member ∷ stack) s = ground (
  arith,
  length-set s.component_of member (some s.component_count),
  size-pop_component node stack (record s {
    scc_stack = stack;
    on_stack = set s.on_stack member false;
    component_of = set s.component_of member (some s.component_count);
  }),
)

size-close : (node : ℕ) (s : Tarjan) → size (close node s) ≡ size s
unfolding close
size-close node s = ground (arith, size-pop_component node s.scc_stack s)

size-finish : (node : ℕ) (rest : List (ℕ × ℕ)) (s : Tarjan) → size (finish node rest s) ≡ size s
unfolding finish
size-finish node [] s = size-close node s
size-finish node ((parent, p) ∷ r) s =
    let s' = record (close node s) { work = (parent, p) ∷ r } in
    size-lower parent (lowlink_of s' node) s' ∙ size-close node s

size-follow : (node next : ℕ) (s : Tarjan) → size (follow node next s) ≡ size s
unfolding follow discover
size-follow node next s = elim (Bool-cases (is_undiscovered s next)) [
  | inl t ↦ rw (t, follow) refl
  | inr f ↦ rw (f, follow) (size-back_edge node next s)
]

size-round :
    (g : Graph) (node p : ℕ) (rest : List (ℕ × ℕ)) (s : Tarjan)
    → size (round g node p rest s) ≡ size s
unfolding round
size-round g node p rest s = elim (Option-cases (get_elem? (get_or (get_elem? g node) []) p)) [
  | inl n ↦ rw (n, round) (size-finish node rest s)
  | inr (next, e) ↦ rw (e, round) (size-follow node next (record s { work = (node, p + 1) ∷ rest }))
]

size-work_loop :
    (g : Graph) (fuel : ℕ) (ws : List (ℕ × ℕ)) (s t : Tarjan)
    → work_loop g fuel ws s ≡ some t
    → size t ≡ size s
unfolding work_loop
size-work_loop g zero [] s t e = cc
size-work_loop g (suc fuel) [] s t e = cc
size-work_loop g zero (w ∷ ws) s t e = cc
size-work_loop g (suc fuel) ((v, p) ∷ ws) s t e =
    let r = round g v p ws s in size-work_loop g fuel r.work r t e ∙ size-round g v p ws s

size-start_loop :
    (g : Graph) (n start : ℕ) (s t : Tarjan) → start_loop g n start s ≡ some t → size t ≡ size s
unfolding start_loop discover
size-start_loop g zero start s t e = cc
size-start_loop g (suc n) start s t e = elim (Bool-cases (is_undiscovered s start)) [
  | inr f ↦ size-start_loop g n (start + 1) s t (skipped f ∙ e)
  | inl u ↦
      elim (Option-cases (work_loop g (work_fuel g) (discover start s).work (discover start s))) [
        | inl w ↦ absurd (cc (stopped u w, e))
        | inr (r, w) ↦
            size-start_loop g n (start + 1) r t (started u r w ∙ e)
            ∙ size-work_loop g (work_fuel g) (discover start s).work (discover start s) r w
      ]
]
  where
    skipped :
        is_undiscovered s start ≡ false
        → start_loop g n (start + 1) s ≡ start_loop g (suc n) start s
    skipped f = rw (f, start_loop) refl

    stopped :
        is_undiscovered s start ≡ true
        → work_loop g (work_fuel g) (discover start s).work (discover start s) ≡ none
        → start_loop g (suc n) start s ≡ none
    stopped u w = rw (u, w, start_loop) refl

    started :
        is_undiscovered s start ≡ true
        → (r : Tarjan)
        → work_loop g (work_fuel g) (discover start s).work (discover start s) ≡ some r
        → start_loop g n (start + 1) r ≡ start_loop g (suc n) start s
    started u r w = rw (u, w, start_loop) refl

length-no_components : (g : Graph) → length (map {B = Option ℕ} (λ _. none) g) ≡ length g
length-no_components [] = refl
length-no_components (x ∷ g) = ap suc (length-no_components g)

pub component_of-length :
    (g : Graph) (t : Tarjan)
    → strongly_connected_components g ≡ some t
    → length t.component_of ≡ length g
unfolding strongly_connected_components
component_of-length g t e = size-start_loop g (length g) 0 (initial g) t e ∙ length-no_components g
