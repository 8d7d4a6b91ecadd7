-- ===== src/Enrich/CallTree/Ends.antt =====
-- The post-order of a call tree ends, whatever its children refer to.
use codespine.Common.{
  ℕ, zero, suc, ◌+◌, ◌≤◌, ◌≡◌, refl, ◌∙◌, sym, ap, subst, Bool, true, false, not, none, some, List,
  [], ◌∷◌, arith, get_or, if◌then◌else◌, nat_beq, nat_beq_iff, nat_key, filter, any, includes,
  length, sum_by, Bool-cases, Option-cases, List-cases, inl, inr, All,
}
use codespine.Common.JsMap
use codespine.Common.JsMap.{JsMap}
use codespine.Enrich.Profile.{ProfileNode, CpuProfileData}
use codespine.Enrich.Join.{RuntimeCallEdge}
use codespine.Enrich.CallTree.{
  Walk, is_settled, push_pending, finish_node, visit, pending_of, walk_tree, tree_fuel, walk_roots,
  known_children, children_of, subtree_samples, call_edges, samples_by_node, profile_node_by_id,
  add_children, edges_of_nodes,
}

length-filter_le {ℓ} : {A : Type ℓ} (p : A → Bool) (xs : List A) → length (filter p xs) ≤ length xs
length-filter_le p [] = omega arith
length-filter_le p (x ∷ xs) = ground (arith, length-filter_le p xs)

-- A test that fails more often is met less often.
any_mono {ℓ} :
    {A : Type ℓ} (p q : A → Bool)
    → ((x : A) → p x ≡ false → q x ≡ false)
    → (xs : List A) → any p xs ≡ false
    → any q xs ≡ false
any_mono p q h [] e = refl
any_mono p q h (x ∷ xs) e = ground (arith, h x, any_mono p q h xs, e)

-- A sum whose terms do not grow, and one of them falls.
sum_by-falls :
    {V : Type 0} (f g : ℕ × V → ℕ)
    → ((e : ℕ × V) → g e ≤ f e)
    → (m : JsMap ℕ V) → sum_by g m ≤ sum_by f m
sum_by-falls f g h [] = omega arith
sum_by-falls f g h (e ∷ m) = omega (arith, h e, sum_by-falls f g h m)

same : {V : Type 0} (w v : V) → some w ≡ some v → w ≡ v
same w v e = cc

sum_by-falls_at :
    {V : Type 0} (f g : ℕ × V → ℕ)
    → ((e : ℕ × V) → g e ≤ f e)
    → (m : JsMap ℕ V) (k : ℕ) (v : V) (d : ℕ) → JsMap.get m k ≡ some v
    → (g (k, v) + d ≤ f (k, v))
    → sum_by g m + d ≤ sum_by f m
unfolding JsMap.get
sum_by-falls_at f g h [] k v d e q = cc
sum_by-falls_at f g h ((j, w) ∷ m) k v d e q = elim (Bool-cases (nat_beq j k)) [
  | inl t ↦
      let q' : g (j, w) + d ≤ f (j, w) =
        rw ((nat_beq_iff j k).0 t, same w v (ground (arith, e, t))) q in
      omega (arith, q', sum_by-falls f g h m)
  | inr r ↦ omega (arith, h (j, w), sum_by-falls_at f g h m k v d (ground (arith, e, r)) q)
]

push_pending-settled :
    (cs : List ℕ) (s : Walk) (c : ℕ)
    → is_settled (push_pending cs s) c ≡ (if includes cs c then true else is_settled s c)
unfolding push_pending includes
push_pending-settled [] s c = refl
push_pending-settled (x ∷ cs) s c =
    ground (
      arith,
      push_pending-settled cs (record s { on_stack = x ∷ s.on_stack; stack = x ∷ s.stack }) c,
    )

push_pending-stack :
    (cs : List ℕ) (s : Walk) → length (push_pending cs s).stack ≡ length cs + length s.stack
unfolding push_pending
push_pending-stack [] s = omega arith
push_pending-stack (x ∷ cs) s =
    omega
      (arith, push_pending-stack cs (record s { on_stack = x ∷ s.on_stack; stack = x ∷ s.stack }))

All-imp {ℓ} :
    {A : Type ℓ} (P Q : A → Type 0) → ((x : A) → P x → Q x) → (xs : List A) → All P xs → All Q xs
All-imp P Q h [] a = tt
All-imp P Q h (x ∷ xs) a = (h x a.0, All-imp P Q h xs a.1)

any_none {ℓ} :
    {A : Type ℓ} (q : A → Bool) (xs : List A) → All (λ x. q x ≡ false) xs → any q xs ≡ false
any_none q [] a = refl
any_none q (x ∷ xs) a = rw a.0 (any_none q xs a.1)

filter-any {ℓ} :
    {A : Type ℓ} (u : A → Bool) (xs : List A) (c : A) (cs : List A)
    → filter u xs ≡ c ∷ cs
    → any u xs ≡ true
filter-any u [] c cs e = cc
filter-any u (x ∷ xs) c cs e = ground (arith, filter-any u xs c cs, e)

includes_grows :
    (u : ℕ → Bool) (x c : ℕ) (xs : List ℕ)
    → includes (filter u xs) c ≡ true
    → includes (filter u (x ∷ xs)) c ≡ true
unfolding includes
includes_grows u x c xs h = ground (arith, h)

kept_in : (u : ℕ → Bool) (xs : List ℕ) → All (λ c. u c ≡ true → includes (filter u xs) c ≡ true) xs
unfolding includes
kept_in u [] = tt
kept_in u (x ∷ xs) = (
  λ h. rw h (ground (arith, (nat_beq_iff x x).1 refl)),
  All-imp (λ c. u c ≡ true → includes (filter u xs) c ≡ true)
      (λ c. u c ≡ true → includes (filter u (x ∷ xs)) c ≡ true)
      (λ c h k. includes_grows u x c xs (h k)) xs (kept_in u xs),
)

others :
    (id : ℕ) (xs : List ℕ) (c : ℕ)
    → nat_beq id c ≡ false
    → includes (filter (λ x. not (nat_beq x id)) xs) c ≡ includes xs c
unfolding includes
others id [] c h = refl
others id (x ∷ xs) c h = ground (arith, others id xs c h, h)

module _ (self : JsMap ℕ ℕ) (by_id : JsMap ℕ ProfileNode) where
  abbrev is_open : Walk → ProfileNode → Bool
  is_open s node = any (λ c. not (is_settled s c)) (known_children self by_id node)

  -- What the expansion of a node costs: nothing, once its children are settled.
  abbrev cost : Walk → ℕ × ProfileNode → ℕ
  cost s e = if is_open s e.1 then suc (length (known_children self by_id e.1)) else 0

  abbrev left : Walk → ℕ
  left s = sum_by (cost s) by_id + length s.stack

  abbrev Grows : Walk → Walk → Type 0
  Grows s t = (c : ℕ) → is_settled s c ≡ true → is_settled t c ≡ true

  cost_mono : (s t : Walk) → Grows s t → (e : ℕ × ProfileNode) → cost t e ≤ cost s e
  cost_mono s t g (k, v) = elim (Bool-cases (is_open s v)) [
    | inl y ↦ rw y (ground arith)
    | inr f ↦
        rw
          (any_mono (λ c. not (is_settled s c)) (λ c. not (is_settled t c))
            (λ c h. ground (arith, g c, h)) (known_children self by_id v) f)
          (omega arith)
  ]

  push_pending-Grows : (cs : List ℕ) (s : Walk) → Grows s (push_pending cs s)
  push_pending-Grows cs s c h = ground (arith, push_pending-settled cs s c, h)

  finish_node-Grows :
      (id : ℕ) (rest : List ℕ) (s : Walk) → Grows s (finish_node self by_id id rest s)
  unfolding finish_node
  finish_node-Grows id rest s c h = elim (Bool-cases (nat_beq id c)) [
    | inl t ↦
        rw
          (
            JsMap.has-set s.subtree id c
                (add_children s.subtree (get_or (JsMap.get self id) 0) (children_of self by_id id)),
            t,
          )
          refl
    | inr f ↦
        rw
          (
            JsMap.has-set s.subtree id c
                (add_children s.subtree (get_or (JsMap.get self id) 0) (children_of self by_id id)),
            f,
            others id s.on_stack c f,
          )
          h
  ]

  -- Pushing the pending children leaves none of them open.
  pushed :
      (s : Walk) (kids : List ℕ)
      → any
          (λ c. not (is_settled (push_pending (filter (λ c. not (is_settled s c)) kids) s) c))
          kids
        ≡ false
  pushed s kids =
      let u : ℕ → Bool = λ c. not (is_settled s c) in
      any_none _ kids (
        All-imp (λ c. u c ≡ true → includes (filter u kids) c ≡ true)
          (λ c. not (is_settled (push_pending (filter u kids) s) c) ≡ false)
          (λ c h. ground (arith, push_pending-settled (filter u kids) s c, h)) kids
          (kept_in u kids))

  finish_node-falls :
      (id : ℕ) (rest : List ℕ) (s : Walk)
      → s.stack ≡ id ∷ rest
      → suc (left (finish_node self by_id id rest s)) ≤ left s
  finish_node-falls id rest s w =
      let t = finish_node self by_id id rest s in
      let e : t.stack ≡ rest = unfold finish_node in refl in
      let h = sum_by-falls (cost s) (cost t) (cost_mono s t (finish_node-Grows id rest s)) by_id in
      omega (arith, h, ap (λ (l : List ℕ). length l) e, ap (λ (l : List ℕ). length l) w)

  expand-falls :
      (id : ℕ) (node : ProfileNode) (s : Walk) (c : ℕ) (cs : List ℕ)
      → JsMap.get by_id id ≡ some node
      → filter (λ c. not (is_settled s c)) (known_children self by_id node) ≡ c ∷ cs
      → suc (
          left
            (push_pending (filter (λ c. not (is_settled s c)) (known_children self by_id node)) s))
        ≤ left s
  expand-falls id node s c cs g e =
      let kids = known_children self by_id node in
      let u : ℕ → Bool = λ c. not (is_settled s c) in
      let t = push_pending (filter u kids) s in
      let o : is_open s node ≡ true = filter-any u kids c cs e in
      let x : is_open t node ≡ false = pushed s kids in
      let fall : cost t (id, node) + suc (length kids) ≤ cost s (id, node) =
        rw (o, x) (omega arith) in
      let h =
        sum_by-falls_at (cost s) (cost t) (cost_mono s t (push_pending-Grows (filter u kids) s))
          by_id id node (suc (length kids)) g fall in
      omega (arith, h, push_pending-stack (filter u kids) s, length-filter_le u kids)

  children_absent : (id : ℕ) → JsMap.get by_id id ≡ none → children_of self by_id id ≡ []
  children_absent id g = rw (g, children_of) refl

  children_present :
      (id : ℕ) (node : ProfileNode)
      → JsMap.get by_id id ≡ some node
      → children_of self by_id id ≡ known_children self by_id node
  children_present id node g = rw (g, children_of) refl

  visit-falls :
      (id : ℕ) (rest : List ℕ) (s : Walk)
      → s.stack ≡ id ∷ rest
      → suc (left (visit self by_id id rest s)) ≤ left s
  unfolding visit
  visit-falls id rest s w = elim (List-cases (pending_of self by_id id s)) [
    | inl e ↦ rw (e, visit) (finish_node-falls id rest s w)
    | inr (c, cs, e) ↦ elim (Option-cases (JsMap.get by_id id)) [
      | inl g ↦ absurd (cc (e, ap (filter (λ c. not (is_settled s c))) (children_absent id g)))
      | inr (node, g) ↦
          let f = sym (ap (filter (λ c. not (is_settled s c))) (children_present id node g)) ∙ e in
          rw (e, visit)
            (subst (λ ps. suc (left (push_pending ps s)) ≤ left s) f
              (expand-falls id node s c cs g f))
    ]
  ]

  walk_tree_ends :
      (fuel : ℕ) (stack : List ℕ) (s : Walk)
      → s.stack ≡ stack
      → left s ≤ fuel
      → (t : Walk) × (walk_tree self by_id fuel stack s ≡ some t)
  unfolding walk_tree
  walk_tree_ends zero [] s w m = (s, refl)
  walk_tree_ends (suc fuel) [] s w m = (s, refl)
  walk_tree_ends zero (id ∷ rest) s w m = absurd (omega (arith, m, ap (λ (l : List ℕ). length l) w))
  walk_tree_ends (suc fuel) (id ∷ rest) s w m =
      let t = visit self by_id id rest s in
      walk_tree_ends fuel t.stack t refl (omega (arith, visit-falls id rest s w, m))

  cost_le :
      (s : Walk) (e : ℕ × ProfileNode) → cost s e ≤ suc (length (known_children self by_id e.1))
  cost_le s (k, v) = elim (Bool-cases (is_open s v)) [
    | inl y ↦ rw y (omega arith)
    | inr f ↦ rw f (omega arith)
  ]

  walk_roots_ends :
      (subtree : JsMap ℕ ℕ) (roots : List ProfileNode)
      → (m : JsMap ℕ ℕ) × (walk_roots self by_id subtree roots ≡ some m)
  unfolding walk_roots
  walk_roots_ends subtree [] = (subtree, refl)
  walk_roots_ends subtree (root ∷ roots) = elim (Bool-cases (JsMap.has subtree root.id)) [
    | inl t ↦ rw (t, walk_roots) (walk_roots_ends subtree roots)
    | inr f ↦
        let s : Walk = record {
          subtree = subtree;
          on_stack = root.id ∷ [];
          stack = root.id ∷ [];
        } in
        let h =
          sum_by-falls (λ e. suc (length (known_children self by_id e.1))) (cost s) (cost_le s)
            by_id in
        let (t, e) =
          walk_tree_ends (tree_fuel self by_id) (root.id ∷ []) s refl (omega (arith, h)) in
        rw (f, e, walk_roots) (walk_roots_ends t.subtree roots)
  ]

-- For every profile, trees or not, subtreeSamples and callEdges end: whatever ids the children of a
-- node name, themselves, each other or none, each root's loop ends within its fuel.
pub call_edges_end :
    (profile : CpuProfileData)
    → ((m : JsMap ℕ ℕ) × (subtree_samples profile ≡ some m))
      × ((edges : List RuntimeCallEdge) × (call_edges profile ≡ some edges))
unfolding subtree_samples call_edges
call_edges_end profile =
    let (m, e) =
      walk_roots_ends (samples_by_node profile) (profile_node_by_id [] profile.nodes) []
        profile.nodes in
    (
      (m, e),
      (
        edges_of_nodes m (profile_node_by_id [] profile.nodes) profile.nodes,
        rw (e, call_edges) refl,
      ),
    )
