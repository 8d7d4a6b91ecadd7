-- ===== src/Query/Components/Assigned/Close.antt =====
-- The end of a node in Tarjan's algorithm: it closes its component and leaves the work stack.
use codespine.Common.{
  ℕ, suc, ◌+◌, ◌≤◌, ◌≡◌, ◌⊎◌, refl, sym, subst, Bool, true, false, Option, some, List, [], ◌∷◌,
  arith, get_or, nat_beq, get_elem?, set, Bool-cases, Option-cases, inl, inr, All,
}
use codespine.Query.Components.{
  Graph, Tarjan, lower, back_edge, pop_component, close, finish, follow, round, is_undiscovered,
  lowlink_of, index_of,
}
use codespine.Query.Components.Ends.{pop_component-index, lower-index, back_edge-index}
use codespine.Query.Components.Assigned.Core.{CoreOf, more-Core, assign-Core}
use codespine.Query.Components.Assigned.Run.{
  OnlyLast, OnlyLast-tail, OnlyLast-root, LastIs-advance, Active, Done, lower-Active,
  back_edge-Active, discover-Active,
}

-- A member leaves the stack for the component.
abbrev popped : ℕ → List ℕ → Tarjan → Tarjan
popped member stack s = record s {
  scc_stack = stack;
  on_stack = set s.on_stack member false;
  component_of = set s.component_of member (some s.component_count);
}

pop_component-lowlink :
    (node : ℕ) (stack : List ℕ) (s : Tarjan)
    → ((pop_component node stack s).lowlink ≡ s.lowlink)
      × ((pop_component node stack s).component_count ≡ s.component_count)
unfolding pop_component
pop_component-lowlink node [] s = (refl, refl)
pop_component-lowlink node (member ∷ stack) s =
    ground (arith, pop_component-lowlink node stack (popped member stack s))

module _ (b m n count : ℕ) where
  -- What is kept while a component is popped off `stack`.
  abbrev Popping : ℕ → List ℕ → Tarjan → Type 0
  Popping r stack s = CoreOf b m n stack (suc count) s × OnlyLast r stack

  pop_component-Popping :
      (r node : ℕ) (stack : List ℕ) (s : Tarjan)
      → s.component_count ≡ count
      → Popping r stack s
      → Popping r (pop_component node stack s).scc_stack (pop_component node stack s)
  unfolding pop_component
  pop_component-Popping r node [] s e (core, only) = (
    assign-Core b m n [] (suc count) s.index s.lowlink s.component_of s.on_stack s.counter core
        s.component_count [] node (omega (arith, e)) (λ u i. absurd i),
    tt,
  )
  pop_component-Popping r node (member ∷ stack) s e (core, only) =
      let core' : CoreOf b m n stack (suc count) (popped member stack s) =
        assign-Core b m n (member ∷ stack) (suc count) s.index s.lowlink s.component_of s.on_stack
          s.counter core s.component_count stack member (omega (arith, e)) (λ u i. i) in
      let only' = OnlyLast-tail r member stack only in
      elim (Bool-cases (nat_beq member node)) [
        | inl t ↦ rw (t, pop_component) (core', only')
        | inr f ↦
            rw (f, pop_component)
              (pop_component-Popping r node stack (popped member stack s) e (core', only'))
      ]

  -- The root's component is all that is left of the stack.
  pop_component-root :
      (r : ℕ) (stack : List ℕ) (s : Tarjan)
      → OnlyLast r stack
      → (pop_component r stack s).scc_stack ≡ []
  unfolding pop_component
  pop_component-root r [] s only = refl
  pop_component-root r (member ∷ stack) s only = elim (Bool-cases (nat_beq member r)) [
    | inl t ↦ rw (t, pop_component) (OnlyLast-root r member stack t only)
    | inr f ↦
        rw (f, pop_component)
          (pop_component-root r stack (popped member stack s) (OnlyLast-tail r member stack only))
  ]

-- The node is the root of its component.
abbrev is_root : ℕ → Tarjan → Bool
is_root node s = nat_beq (lowlink_of s node) (get_or (index_of s node) 0)

module _ (r b m n : ℕ) where
  -- The component is popped, with its number taken.
  popped-Active :
      (ws : List (ℕ × ℕ)) (node : ℕ) (s : Tarjan)
      → Active r b m n ws s
      → CoreOf b m n
          (pop_component node s.scc_stack s).scc_stack
          (suc (pop_component node s.scc_stack s).component_count)
          (pop_component node s.scc_stack s)
        × OnlyLast r (pop_component node s.scc_stack s).scc_stack
  popped-Active ws node s a =
      let t = pop_component node s.scc_stack s in
      let (core, only) = pop_component-Popping b m n s.component_count r node s.scc_stack s refl (
        more-Core b m n s.scc_stack s.component_count s.index s.lowlink s.component_of s.on_stack
            s.counter a.core,
        a.only,
      ) in
      let same = (pop_component-lowlink node s.scc_stack s).1 in
      (subst (λ c. CoreOf b m n t.scc_stack (suc c) t) (sym same) core, only)

  close-Active :
      (ws : List (ℕ × ℕ)) (node : ℕ) (s : Tarjan)
      → Active r b m n ws s
      → Active r b m n ws (close node s)
  unfolding close
  close-Active ws node s a = elim (Bool-cases (is_root node s)) [
    | inr f ↦ rw (f, close) a
    | inl t ↦
        let (core, only) = popped-Active ws node s a in
        let u = pop_component node s.scc_stack s in
        let next : suc u.component_count ≡ u.component_count + 1 = omega arith in
        let low = (pop_component-lowlink node s.scc_stack s).0 in
        let index = pop_component-index node s.scc_stack s in
        rw (t, close)
          (record {
            core = subst (λ c. CoreOf b m n u.scc_stack c u) next core;
            low =
                subst (λ (xs : List ℕ). All (λ w. b ≤ get_or (get_elem? xs w.0) 0) ws) (sym low)
                  a.low;
            last = a.last;
            root_low = subst (λ (xs : List ℕ). get_or (get_elem? xs r) 0 ≤ b) (sym low) a.root_low;
            root_index =
                subst (λ (xs : List (Option ℕ)). get_elem? xs r ≡ some (some b)) (sym index)
                  a.root_index;
            only = only;
          })
  ]

  -- The root closes: both stacks are empty.
  close_root-Done :
      (p : ℕ) (s : Tarjan)
      → Active r b m n ((r, p) ∷ []) s
      → Done m n (record (close r s) { work = [] })
  unfolding close
  close_root-Done p s a =
      let (core, only) = popped-Active ((r, p) ∷ []) r s a in
      let u = pop_component r s.scc_stack s in
      let next : suc u.component_count ≡ u.component_count + 1 = omega arith in
      let empty = pop_component-root b m n s.component_count r s.scc_stack s a.only in
      let root : lowlink_of s r ≡ b = omega (arith, a.low.0, a.root_low) in
      let t : is_root r s ≡ true = rw (root, a.root_index) (ground arith) in
      let core' : CoreOf b m n [] (u.component_count + 1) u =
        subst (λ c. CoreOf b m n [] c u) next
          (subst (λ (k : List ℕ). CoreOf b m n k (suc u.component_count) u) empty core) in
      rw (t, close) (record { base = b; core = core'; work_empty = refl; stack_empty = empty })

  finish-Active :
      (node p : ℕ) (rest : List (ℕ × ℕ)) (s : Tarjan)
      → Active r b m n ((node, p) ∷ rest) s
      → Active r b m n (finish node rest s).work (finish node rest s)
        ⊎ (Done m n (finish node rest s) × ((finish node rest s).work ≡ []))
  unfolding finish
  finish-Active node p [] s a =
      let a' = subst (λ v. Active r b m n ((v, p) ∷ []) s) a.last a in
      inr (
        subst (λ v. Done m n (record (close v s) { work = [] })) (sym a.last)
            (close_root-Done p s a'),
        refl,
      )
  finish-Active node p ((parent, q) ∷ rest) s a =
      let c = close-Active ((node, p) ∷ (parent, q) ∷ rest) node s a in
      let u = record (close node s) { work = (parent, q) ∷ rest } in
      let active : Active r b m n ((parent, q) ∷ rest) u = record {
        core = c.core;
        low = c.low.1;
        last = c.last;
        root_low = c.root_low;
        root_index = c.root_index;
        only = c.only;
      } in
      let l =
        lower-Active r b m n ((parent, q) ∷ rest) parent (lowlink_of u node) u c.low.0 active in
      inl (
        subst (λ ws. Active r b m n ws (lower parent (lowlink_of u node) u))
          (sym (lower-index parent (lowlink_of u node) u).1) l)

  pub round-Active :
      (g : Graph) (node p : ℕ) (rest : List (ℕ × ℕ)) (s : Tarjan)
      → Active r b m n ((node, p) ∷ rest) s
      → Active r b m n (round g node p rest s).work (round g node p rest s)
        ⊎ (Done m n (round g node p rest s) × ((round g node p rest s).work ≡ []))
  unfolding round follow
  round-Active g node p rest s a =
      elim (Option-cases (get_elem? (get_or (get_elem? g node) []) p)) [
        | inl e ↦ rw (e, round) (finish-Active node p rest s a)
        | inr (next, e) ↦
            let s' = record s { work = (node, p + 1) ∷ rest } in
            let active : Active r b m n ((node, p + 1) ∷ rest) s' = record {
              core = a.core;
              low = a.low;
              last = LastIs-advance r node p (p + 1) rest a.last;
              root_low = a.root_low;
              root_index = a.root_index;
              only = a.only;
            } in
            elim (Bool-cases (is_undiscovered s' next)) [
              | inl t ↦ rw (e, t, round, follow) (inl (discover-Active r b m n next s' t active))
              | inr f ↦
                  rw (e, f, round, follow)
                    (inl (
                      subst (λ ws. Active r b m n ws (back_edge node next s'))
                        (sym (back_edge-index node next s').1)
                        (back_edge-Active r b m n ((node, p + 1) ∷ rest) node next s' active)))
            ]
      ]
