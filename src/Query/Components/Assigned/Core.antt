-- ===== src/Query/Components/Assigned/Core.antt =====
-- What Tarjan's algorithm keeps of its arrays: an indexed node is on `sccStack` or in a component.
use codespine.Common.{
  ℕ, zero, suc, ◌+◌, ◌≤◌, ◌<◌, ◌≡◌, ◌⊎◌, refl, sym, ◌∙◌, ap, subst, Bool, true, false, Option, none,
  some, List, [], ◌∷◌, arith, get_or, nat_beq, length, length-set, get_elem?, get_elem?_in_bounds,
  set, Bool-cases, inl, inr, In,
}
use codespine.Query.Components.{Tarjan}

pub get_elem?_bound {ℓ} :
    {A : Type ℓ} (xs : List A) (i : ℕ) → i < length xs → (x : A) × (get_elem? xs i ≡ some x)
get_elem?_bound [] i h = absurd (omega (arith, h))
get_elem?_bound (x ∷ xs) zero h = (x, refl)
get_elem?_bound (x ∷ xs) (suc i) h = get_elem?_bound xs i (omega (arith, h))

pub set_same {ℓ} :
    {A : Type ℓ} (xs : List A) (i : ℕ) (v y : A)
    → get_elem? xs i ≡ some y
    → get_elem? (set xs i v) i ≡ some v
set_same [] i v y h = absurd (ground (arith, h))
set_same (x ∷ xs) zero v y h = refl
set_same (x ∷ xs) (suc i) v y h = set_same xs i v y h

pub set_other {ℓ} :
    {A : Type ℓ} (xs : List A) (i j : ℕ) (v : A)
    → nat_beq i j ≡ false
    → get_elem? (set xs i v) j ≡ get_elem? xs j
set_other [] i j v h = refl
set_other (x ∷ xs) zero zero v h = absurd (ground (arith, h))
set_other (x ∷ xs) zero (suc j) v h = refl
set_other (x ∷ xs) (suc i) zero v h = refl
set_other (x ∷ xs) (suc i) (suc j) v h = set_other xs i j v (ground (arith, h))

-- A node that leaves the stack is off it, in bounds or not.
set_off : (xs : List Bool) (i : ℕ) → get_or (get_elem? (set xs i false) i) false ≡ false
set_off [] i = refl
set_off (x ∷ xs) zero = refl
set_off (x ∷ xs) (suc i) = set_off xs i

pub same_node : (i j : ℕ) → nat_beq i j ≡ true → i ≡ j
same_node i j h = ground (arith, h)

abbrev pub HasComponent : ℕ → List (Option ℕ) → ℕ → Type 0
HasComponent count component_of v =
    (c : ℕ) × (get_elem? component_of v ≡ some (some c)) × (c < count)

-- The arrays of a run of the algorithm over `n` nodes whose root has the index `b`: an indexed node
-- is on `stack` or in one of `count` components; a node that is marked to be on the stack is, with
-- an index from `b` on; and the first `m` nodes are indexed.
pub record Core (b m n : ℕ) (stack : List ℕ) (count : ℕ) (index : List (Option ℕ))
    (lowlink : List ℕ) (component_of : List (Option ℕ)) (on_stack : List Bool) (counter : ℕ)
    : Type 0 where
  pub index_size : length index ≡ n
  pub lowlink_size : length lowlink ≡ n
  pub component_size : length component_of ≡ n
  pub placed :
      (v k : ℕ) → get_elem? index v ≡ some (some k) → In v stack ⊎ HasComponent count component_of v
  pub held :
      (v : ℕ)
      → get_or (get_elem? on_stack v) false ≡ true
      → In v stack × ((k : ℕ) × ((get_elem? index v ≡ some (some k)) × (b ≤ k)))
  pub seen : (v : ℕ) → v < m → (k : ℕ) × (get_elem? index v ≡ some (some k))
  pub base_le : b ≤ counter

abbrev pub CoreOf : ℕ → ℕ → ℕ → List ℕ → ℕ → Tarjan → Type 0
CoreOf b m n stack count s =
    Core b m n stack count s.index s.lowlink s.component_of s.on_stack s.counter

module _ (b m n : ℕ) (stack : List ℕ) (count : ℕ) (index : List (Option ℕ)) (lowlink : List ℕ)
    (component_of : List (Option ℕ)) (on_stack : List Bool) (counter : ℕ)
    (core : Core b m n stack count index lowlink component_of on_stack counter) where
  -- A new node enters the arrays.
  pub discover-Core :
      (v : ℕ)
      → get_elem? index v ≡ some none
      → Core b m n
          (v ∷ stack)
          count
          (set index v (some counter))
          (set lowlink v counter)
          component_of
          (set on_stack v true)
          (counter + 1)
  discover-Core v undiscovered =
      let now : get_elem? (set index v (some counter)) v ≡ some (some counter) =
        set_same index v (some counter) none undiscovered in
      record {
        index_size = length-set index v (some counter) ∙ core.index_size;
        lowlink_size = length-set lowlink v counter ∙ core.lowlink_size;
        component_size = core.component_size;
        placed = λ u k e. elim (Bool-cases (nat_beq v u)) [
          | inl t ↦ inl (inl (sym (same_node v u t)))
          | inr f ↦ elim (core.placed u k (sym (set_other index v u (some counter) f) ∙ e)) [
            | inl i ↦ inl (inr i)
            | inr c ↦ inr c
          ]
        ];
        held = λ u e. elim (Bool-cases (nat_beq v u)) [
          | inl t ↦ (
            inl (sym (same_node v u t)),
            (
              counter,
              (
                subst (λ x. get_elem? (set index v (some counter)) x ≡ some (some counter))
                    (same_node v u t) now,
                core.base_le,
              ),
            ),
          )
          | inr f ↦
              let on = ap (λ o. get_or o false) (sym (set_other on_stack v u true f)) ∙ e in
              let (i, (k, (h, l))) = core.held u on in
              (inr i, (k, (set_other index v u (some counter) f ∙ h, l)))
        ];
        seen = λ u l. elim (Bool-cases (nat_beq v u)) [
          | inl t ↦ (
            counter,
            subst (λ x. get_elem? (set index v (some counter)) x ≡ some (some counter))
                (same_node v u t) now,
          )
          | inr f ↦ let (k, h) = core.seen u l in (k, set_other index v u (some counter) f ∙ h)
        ];
        base_le = omega (arith, core.base_le);
      }

  -- A lowlink changes.
  pub lower-Core :
      (v low : ℕ) → Core b m n stack count index (set lowlink v low) component_of on_stack counter
  lower-Core v low = record {
    index_size = core.index_size;
    lowlink_size = length-set lowlink v low ∙ core.lowlink_size;
    component_size = core.component_size;
    placed = core.placed;
    held = core.held;
    seen = core.seen;
    base_le = core.base_le;
  }

  -- The component that is being closed has a number too.
  pub more-Core : Core b m n stack (suc count) index lowlink component_of on_stack counter
  more-Core = record {
    index_size = core.index_size;
    lowlink_size = core.lowlink_size;
    component_size = core.component_size;
    placed = λ u k e. elim (core.placed u k e) [
      | inl i ↦ inl i
      | inr (c, h, l) ↦ inr (c, h, omega (arith, l))
    ];
    held = core.held;
    seen = core.seen;
    base_le = core.base_le;
  }

  -- The first start that is not among the first `m` is indexed.
  pub seen-Core :
      (k : ℕ)
      → get_elem? index m ≡ some (some k)
      → Core b (suc m) n stack count index lowlink component_of on_stack counter
  seen-Core k e = record {
    index_size = core.index_size;
    lowlink_size = core.lowlink_size;
    component_size = core.component_size;
    placed = core.placed;
    held = core.held;
    seen = λ u l. elim (Bool-cases (nat_beq m u)) [
      | inl t ↦ (k, subst (λ x. get_elem? index x ≡ some (some k)) (same_node m u t) e)
      | inr f ↦ core.seen u (ground (arith, f, l))
    ];
    base_le = core.base_le;
  }

  -- A node is set to be in the component `c`.
  pub assign-Core :
      (c : ℕ) (rest : List ℕ) (member : ℕ)
      → c < count
      → ((u : ℕ) → In u stack → (u ≡ member) ⊎ In u rest)
      → Core b m n rest count index lowlink
          (set component_of member (some c))
          (set on_stack member false)
          counter
  assign-Core c rest member l left = record {
    index_size = core.index_size;
    lowlink_size = core.lowlink_size;
    component_size = length-set component_of member (some c) ∙ core.component_size;
    placed = λ u k e.
        let bound : u < length component_of =
          omega
            (arith, get_elem?_in_bounds index u (some k) e, core.index_size, core.component_size) in
        let (y, h) = get_elem?_bound component_of u bound in
        elim (Bool-cases (nat_beq member u)) [
          | inl t ↦
              let p = same_node member u t in
              inr (
                c,
                subst (λ x. get_elem? (set component_of member (some c)) x ≡ some (some c)) p
                    (set_same component_of member (some c) y
                      (subst (λ x. get_elem? component_of x ≡ some y) (sym p) h)),
                l,
              )
          | inr f ↦ elim (core.placed u k e) [
            | inl i ↦ elim (left u i) [ inl p ↦ absurd (ground (arith, p, f)) | inr j ↦ inl j ]
            | inr (d, q, r) ↦ inr (d, set_other component_of member u (some c) f ∙ q, r)
          ]
        ];
    held = λ u e. elim (Bool-cases (nat_beq member u)) [
      | inl t ↦
          let off : get_or (get_elem? (set on_stack member false) u) false ≡ false =
            subst (λ x. get_or (get_elem? (set on_stack member false) x) false ≡ false)
              (same_node member u t) (set_off on_stack member) in
          absurd (ground (arith, off, e))
      | inr f ↦
          let on = ap (λ o. get_or o false) (sym (set_other on_stack member u false f)) ∙ e in
          let (i, h) = core.held u on in
          elim (left u i) [ inl p ↦ absurd (ground (arith, p, f)) | inr j ↦ (j, h) ]
    ];
    seen = core.seen;
    base_le = core.base_le;
  }

-- A component that has ended leaves nothing on the stack, so that the next one may start anywhere.
pub restart-Core :
    (b m n count : ℕ) (s : Tarjan) → CoreOf b m n [] count s → CoreOf s.counter m n [] count s
restart-Core b m n count s core = record {
  index_size = core.index_size;
  lowlink_size = core.lowlink_size;
  component_size = core.component_size;
  placed = core.placed;
  held = λ u e. absurd (core.held u e).0;
  seen = core.seen;
  base_le = omega arith;
}
