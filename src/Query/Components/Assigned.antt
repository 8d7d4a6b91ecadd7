-- ===== src/Query/Components/Assigned.antt =====
-- Tarjan's algorithm gives every node a component.
pub mod Core
mod Run
mod Close
use codespine.Common.{
  ℕ, zero, suc, ◌+◌, ◌≤◌, ◌<◌, ◌≡◌, ◌≢◌, ◌⊎◌, refl, sym, ◌∙◌, ap, subst, true, false, Option, none,
  some, List, [], ◌∷◌, arith, get_or, length, get_elem?, set, map, Bool-cases, Option-cases, inl,
  inr,
}
use codespine.Query.Components.{
  Graph, Tarjan, discover, is_undiscovered, round, work_loop, work_fuel, start_loop, initial,
  strongly_connected_components,
}
use codespine.Query.Components.Ends.{undiscovered_entry}
use codespine.Query.Components.Assigned.Core.{
  CoreOf, HasComponent, restart-Core, discover-Core, seen-Core, get_elem?_bound, set_same,
}
use codespine.Query.Components.Assigned.Run.{Active, Done, new_lowlink}
use codespine.Query.Components.Assigned.Close.{round-Active}

-- A run of the work loop that has begun ends with both stacks empty.
work_loop-Done :
    (g : Graph) (r b m n fuel : ℕ) (ws : List (ℕ × ℕ)) (s t : Tarjan)
    → Active r b m n ws s ⊎ (Done m n s × (ws ≡ []))
    → work_loop g fuel ws s ≡ some t
    → Done m n t
unfolding work_loop
work_loop-Done g r b m n zero [] s t (inl a) e = absurd a.last
work_loop-Done g r b m n (suc fuel) [] s t (inl a) e = absurd a.last
work_loop-Done g r b m n zero [] s t (inr (d, _)) e = let p : s ≡ t = cc in subst (Done m n) p d
work_loop-Done g r b m n (suc fuel) [] s t (inr (d, _)) e =
    let p : s ≡ t = cc in subst (Done m n) p d
work_loop-Done g r b m n zero (w ∷ ws) s t a e = cc
work_loop-Done g r b m n (suc fuel) ((node, p) ∷ ws) s t (inl a) e =
    let s' = round g node p ws s in
    work_loop-Done g r b m n fuel s'.work s' t (round-Active r b m n g node p ws s a) e
work_loop-Done g r b m n (suc fuel) ((node, p) ∷ ws) s t (inr (_, q)) e = absurd (cc q)

-- A start that has no index begins a run.
start-Active :
    (m n : ℕ) (s : Tarjan)
    → Done m n s
    → is_undiscovered s m ≡ true
    → Active m s.counter (suc m) n (discover m s).work (discover m s)
unfolding discover
start-Active m n s d u =
    let e = undiscovered_entry s m u in
    let idle = restart-Core d.base m n s.component_count s d.core in
    let found =
      discover-Core s.counter m n [] s.component_count s.index s.lowlink s.component_of s.on_stack
        s.counter idle m e in
    let at = set_same s.index m (some s.counter) none e in
    let low =
      new_lowlink m s.counter s.index s.lowlink e (idle.index_size ∙ sym idle.lowlink_size) in
    let seen =
      seen-Core s.counter m n (m ∷ []) s.component_count (set s.index m (some s.counter))
        (set s.lowlink m s.counter) s.component_of (set s.on_stack m true) (s.counter + 1) found
        s.counter at in
    rw (d.work_empty, d.stack_empty)
      (record {
        core = seen;
        low = (omega (arith, low), tt);
        last = refl;
        root_low = omega (arith, low);
        root_index = at;
        only = tt;
      })

discovered_index :
    (s : Tarjan) (v : ℕ)
    → v < length s.index
    → is_undiscovered s v ≡ false
    → (k : ℕ) × (get_elem? s.index v ≡ some (some k))
unfolding is_undiscovered
discovered_index s v l u = let (o, e) = get_elem?_bound s.index v l in entry o e
  where
    entry :
        (o : Option ℕ)
        → get_elem? s.index v ≡ some o
        → (k : ℕ) × (get_elem? s.index v ≡ some (some k))
    entry none e = absurd (ground (arith, e, u))
    entry (some k) e = (k, e)

skip-Done :
    (m n : ℕ) (s : Tarjan) → Done m n s → m < n → is_undiscovered s m ≡ false → Done (suc m) n s
skip-Done m n s d l u =
    let (k, e) = discovered_index s m (omega (arith, l, d.core.index_size)) u in
    record {
      base = d.base;
      core =
          seen-Core d.base m n [] s.component_count s.index s.lowlink s.component_of s.on_stack
            s.counter d.core k e;
      work_empty = d.work_empty;
      stack_empty = d.stack_empty;
    }

start_loop-Done :
    (g : Graph) (left m n : ℕ) (s t : Tarjan)
    → left + m ≡ n
    → Done m n s
    → start_loop g left m s ≡ some t
    → Done n n t
unfolding start_loop
start_loop-Done g zero m n s t q d e =
    let p : s ≡ t = cc in
    let r : m ≡ n = omega arith in subst (Done n n) p (subst (λ k. Done k n s) r d)
start_loop-Done g (suc left) m n s t q d e = elim (Bool-cases (is_undiscovered s m)) [
  | inr f ↦
      start_loop-Done g left (m + 1) n s t (omega (arith, q))
        (subst (λ k. Done k n s) next (skip-Done m n s d (omega (arith, q)) f)) (skipped f ∙ e)
  | inl u ↦ elim (Option-cases (work_loop g (work_fuel g) (discover m s).work (discover m s))) [
    | inl w ↦ absurd (cc (stopped u w, e))
    | inr (r, w) ↦
        start_loop-Done g left (m + 1) n r t (omega (arith, q))
          (subst (λ k. Done k n r) next
            (work_loop-Done g m s.counter (suc m) n (work_fuel g) (discover m s).work (discover m s)
              r (inl (start-Active m n s d u)) w))
          (started u r w ∙ e)
  ]
]
  where
    next : suc m ≡ m + 1
    next = omega arith

    skipped :
        is_undiscovered s m ≡ false → start_loop g left (m + 1) s ≡ start_loop g (suc left) m s
    skipped f = rw (f, start_loop) refl

    stopped :
        is_undiscovered s m ≡ true
        → work_loop g (work_fuel g) (discover m s).work (discover m s) ≡ none
        → start_loop g (suc left) m s ≡ none
    stopped u w = rw (u, w, start_loop) refl

    started :
        is_undiscovered s m ≡ true
        → (r : Tarjan) → work_loop g (work_fuel g) (discover m s).work (discover m s) ≡ some r
        → start_loop g left (m + 1) r ≡ start_loop g (suc left) m s
    started u r w = rw (u, w, start_loop) refl

length-const {ℓ} : {A : Type ℓ} (x : A) (g : Graph) → length (map (λ _. x) g) ≡ length g
length-const x [] = refl
length-const x (succ ∷ g) = ap suc (length-const x g)

no_index : (g : Graph) (v k : ℕ) → get_elem? (map {B = Option ℕ} (λ _. none) g) v ≢ some (some k)
no_index [] v k = ground arith
no_index (succ ∷ g) zero k = ground arith
no_index (succ ∷ g) (suc v) k = no_index g v k

all_off : (g : Graph) (v : ℕ) → get_or (get_elem? (map (λ _. false) g) v) false ≡ false
all_off [] v = refl
all_off (succ ∷ g) zero = refl
all_off (succ ∷ g) (suc v) = all_off g v

initial-Done : (g : Graph) → Done 0 (length g) (initial g)
initial-Done g = record {
  base = 0;
  core = record {
    index_size = length-const none g;
    lowlink_size = length-const 0 g;
    component_size = length-const none g;
    placed = λ v k e. absurd (no_index g v k e);
    held = λ v e. absurd (ground (arith, all_off g v, e));
    seen = λ v l. absurd (omega (arith, l));
    base_le = omega arith;
  };
  work_empty = refl;
  stack_empty = refl;
}

-- When the algorithm ends, every node is in one of the components that it counts.
pub component_of-HasComponent :
    (g : Graph) (t : Tarjan)
    → strongly_connected_components g ≡ some t
    → (v : ℕ) → v < length g
    → HasComponent t.component_count t.component_of v
unfolding strongly_connected_components
component_of-HasComponent g t e v l =
    let d =
      start_loop-Done g (length g) 0 (length g) (initial g) t (omega arith) (initial-Done g) e in
    let (k, h) = d.core.seen v l in elim (d.core.placed v k h) [ inl i ↦ absurd i | inr c ↦ c ]
