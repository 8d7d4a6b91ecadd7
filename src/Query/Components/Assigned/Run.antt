-- ===== src/Query/Components/Assigned/Run.antt =====
-- A run of Tarjan's work loop from one root, round by round.
use codespine.Common.{
  ℕ, zero, suc, ◌≤◌, ◌<◌, ◌≡◌, refl, sym, ◌∙◌, subst, true, false, Option, none, some, List, [],
  ◌∷◌, arith, get_or, ltb, nat_beq, length, get_elem?, get_elem?_in_bounds, set, Bool-cases, inl,
  inr, All,
}
use codespine.Query.Components.{
  Tarjan, discover, is_undiscovered, lower, back_edge, lowlink_of, index_of,
}
use codespine.Query.Components.Ends.{undiscovered_entry}
use codespine.Query.Components.Assigned.Core.{
  CoreOf, same_node, set_same, set_other, get_elem?_bound, discover-Core, lower-Core,
}

-- The root is at the bottom of the work stack.
abbrev pub LastIs : ℕ → List (ℕ × ℕ) → Type 0
LastIs r [] = ⊥
LastIs r (w ∷ []) = w.0 ≡ r
LastIs r (w ∷ x ∷ ws) = LastIs r (x ∷ ws)

-- The root is nowhere above the bottom of `sccStack`.
abbrev pub OnlyLast : ℕ → List ℕ → Type 0
OnlyLast r [] = Unit
OnlyLast r (v ∷ []) = Unit
OnlyLast r (v ∷ u ∷ stack) = (nat_beq v r ≡ false) × OnlyLast r (u ∷ stack)

pub OnlyLast-tail : (r v : ℕ) (stack : List ℕ) → OnlyLast r (v ∷ stack) → OnlyLast r stack
OnlyLast-tail r v [] h = tt
OnlyLast-tail r v (u ∷ stack) h = h.1

OnlyLast-push :
    (r v : ℕ) (stack : List ℕ) → nat_beq v r ≡ false → OnlyLast r stack → OnlyLast r (v ∷ stack)
OnlyLast-push r v [] e h = tt
OnlyLast-push r v (u ∷ stack) e h = (e, h)

pub OnlyLast-root :
    (r v : ℕ) (stack : List ℕ) → nat_beq v r ≡ true → OnlyLast r (v ∷ stack) → stack ≡ []
OnlyLast-root r v [] e h = refl
OnlyLast-root r v (u ∷ stack) e h = absurd (ground (arith, e, h.0))

LastIs-push : (r : ℕ) (w : ℕ × ℕ) (ws : List (ℕ × ℕ)) → LastIs r ws → LastIs r (w ∷ ws)
LastIs-push r w [] h = absurd h
LastIs-push r w (x ∷ ws) h = h

pub LastIs-advance :
    (r v p q : ℕ) (ws : List (ℕ × ℕ)) → LastIs r ((v, p) ∷ ws) → LastIs r ((v, q) ∷ ws)
LastIs-advance r v p q [] h = h
LastIs-advance r v p q (x ∷ ws) h = h

-- A run in progress from the root `r` of index `b`, with `ws` on the work stack.
pub record Active (r b m n : ℕ) (ws : List (ℕ × ℕ)) (s : Tarjan) : Type 0 where
  pub core : CoreOf b m n s.scc_stack s.component_count s
  pub low : All (λ w. b ≤ get_or (get_elem? s.lowlink w.0) 0) ws
  pub last : LastIs r ws
  pub root_low : get_or (get_elem? s.lowlink r) 0 ≤ b
  pub root_index : get_elem? s.index r ≡ some (some b)
  pub only : OnlyLast r s.scc_stack

-- A run that has ended: both stacks are empty.
pub record Done (m n : ℕ) (s : Tarjan) : Type 0 where
  pub base : ℕ
  pub core : CoreOf base m n [] s.component_count s
  pub work_empty : s.work ≡ []
  pub stack_empty : s.scc_stack ≡ []

low_set :
    (xs : List ℕ) (v low b u : ℕ)
    → b ≤ low
    → b ≤ get_or (get_elem? xs u) 0
    → b ≤ get_or (get_elem? (set xs v low) u) 0
low_set [] v low b u l h = h
low_set (x ∷ xs) zero low b zero l h = l
low_set (x ∷ xs) zero low b (suc u) l h = h
low_set (x ∷ xs) (suc v) low b zero l h = h
low_set (x ∷ xs) (suc v) low b (suc u) l h = low_set xs v low b u l h

low_sets :
    (xs : List ℕ) (v low b : ℕ) (ws : List (ℕ × ℕ))
    → b ≤ low
    → All (λ w. b ≤ get_or (get_elem? xs w.0) 0) ws
    → All (λ w. b ≤ get_or (get_elem? (set xs v low) w.0) 0) ws
low_sets xs v low b [] l h = tt
low_sets xs v low b (w ∷ ws) l h = (low_set xs v low b w.0 l h.0, low_sets xs v low b ws l h.1)

root_set :
    (xs : List ℕ) (v low b r : ℕ)
    → low < get_or (get_elem? xs v) 0
    → get_or (get_elem? xs r) 0 ≤ b
    → get_or (get_elem? (set xs v low) r) 0 ≤ b
root_set [] v low b r l h = h
root_set (x ∷ xs) zero low b zero l h = omega (arith, l, h)
root_set (x ∷ xs) zero low b (suc r) l h = h
root_set (x ∷ xs) (suc v) low b zero l h = h
root_set (x ∷ xs) (suc v) low b (suc r) l h = root_set xs v low b r l h

root_other :
    (xs : List ℕ) (v low b r : ℕ)
    → nat_beq v r ≡ false
    → get_or (get_elem? xs r) 0 ≤ b
    → get_or (get_elem? (set xs v low) r) 0 ≤ b
root_other [] v low b r e h = h
root_other (x ∷ xs) zero low b zero e h = absurd (ground (arith, e))
root_other (x ∷ xs) zero low b (suc r) e h = h
root_other (x ∷ xs) (suc v) low b zero e h = h
root_other (x ∷ xs) (suc v) low b (suc r) e h = root_other xs v low b r (ground (arith, e)) h

-- The lowlink of a new node is its index.
pub new_lowlink :
    (v c : ℕ) (index : List (Option ℕ)) (lowlink : List ℕ)
    → get_elem? index v ≡ some none
    → length index ≡ length lowlink
    → get_or (get_elem? (set lowlink v c) v) 0 ≡ c
new_lowlink v c index lowlink e l =
    let (y, h) = get_elem?_bound lowlink v (omega (arith, get_elem?_in_bounds index v none e, l)) in
    rw (set_same lowlink v c y h) refl

module _ (r b m n : ℕ) where
  pub lower-Active :
      (ws : List (ℕ × ℕ)) (node low : ℕ) (s : Tarjan)
      → b ≤ low
      → Active r b m n ws s
      → Active r b m n ws (lower node low s)
  unfolding lower
  lower-Active ws node low s l a = elim (Bool-cases (ltb low (lowlink_of s node))) [
    | inr f ↦ rw (f, lower) a
    | inl t ↦
        let lt : low < get_or (get_elem? s.lowlink node) 0 = ground (arith, t) in
        rw (t, lower)
          (record {
            core =
                lower-Core b m n s.scc_stack s.component_count s.index s.lowlink s.component_of
                  s.on_stack s.counter a.core node low;
            low = low_sets s.lowlink node low b ws l a.low;
            last = a.last;
            root_low = root_set s.lowlink node low b r lt a.root_low;
            root_index = a.root_index;
            only = a.only;
          })
  ]

  pub back_edge-Active :
      (ws : List (ℕ × ℕ)) (node next : ℕ) (s : Tarjan)
      → Active r b m n ws s
      → Active r b m n ws (back_edge node next s)
  unfolding back_edge
  back_edge-Active ws node next s a = elim (Bool-cases (get_or (get_elem? s.on_stack next) false)) [
    | inr f ↦ rw (f, back_edge) a
    | inl t ↦
        let (i, (k, (h, l))) = a.core.held next t in
        rw (t, back_edge) (lower-Active ws node (get_or (index_of s next) 0) s (rw h l) a)
  ]

  pub discover-Active :
      (v : ℕ) (s : Tarjan)
      → is_undiscovered s v ≡ true
      → Active r b m n s.work s
      → Active r b m n (discover v s).work (discover v s)
  unfolding discover
  discover-Active v s u a =
      let e = undiscovered_entry s v u in
      let core =
        discover-Core b m n s.scc_stack s.component_count s.index s.lowlink s.component_of
          s.on_stack s.counter a.core in
      elim (Bool-cases (nat_beq v r)) [
        | inl t ↦ absurd (
            ground (
              arith,
              subst (λ x. get_elem? s.index x ≡ some none) (same_node v r t) e,
              a.root_index,
            ))
        | inr f ↦ record {
          core = core v e;
          low = (
            omega (
              arith,
              a.core.base_le,
              new_lowlink v s.counter s.index s.lowlink e
                  (a.core.index_size ∙ sym a.core.lowlink_size),
            ),
            low_sets s.lowlink v s.counter b s.work a.core.base_le a.low,
          );
          last = LastIs-push r (v, 0) s.work a.last;
          root_low = root_other s.lowlink v s.counter b r f a.root_low;
          root_index = set_other s.index v r (some s.counter) f ∙ a.root_index;
          only = OnlyLast-push r v s.scc_stack f a.only;
        }
      ]
