-- ===== src/Query/Cost/Cycles/Collected.antt =====
-- What `strongCycles` collects as the members of the components.
use codespine.Common.{
  sym, append_nil, append_cons, if◌then◌else◌, nat_beq, ℕ, zero, suc, ◌+◌, ◌≤◌, ◌<◌, ◌≡◌, refl, ◌∙◌,
  ap, subst, ◌++◌, Option, none, some, List, [], ◌∷◌, get_elem?, set, length, length-set, arith,
  All, Bool-cases, inl, inr,
}
use codespine.Query.Components.Assigned.Core.{
  HasComponent, get_elem?_bound, set_same, set_other, same_node,
}
use codespine.Query.Cost.Model.{repeat}
use codespine.Query.Cost.Cycles.{collect_members}

All-set {ℓ} :
    {A : Type ℓ} (Q : A → Type 0) (xs : List A) (i : ℕ) (v : A)
    → All Q xs
    → Q v
    → All Q (set xs i v)
All-set Q [] i v a q = tt
All-set Q (x ∷ xs) zero v a q = (q, a.1)
All-set Q (x ∷ xs) (suc i) v a q = (a.0, All-set Q xs i v a.1 q)

same {ℓ} : {A : Type ℓ} (y x : A) → some y ≡ some x → y ≡ x
same y x e = cc

All-get {ℓ} :
    {A : Type ℓ} (Q : A → Type 0) (xs : List A) (i : ℕ) (x : A)
    → All Q xs
    → get_elem? xs i ≡ some x
    → Q x
All-get Q [] i x a e = absurd (cc e)
All-get Q (y ∷ xs) zero x a e = subst Q (same y x e) a.0
All-get Q (y ∷ xs) (suc i) x a e = All-get Q xs i x a.1 e

All-snoc {ℓ} :
    {A : Type ℓ} (P : A → Type 0) (xs : List A) (x : A) → All P xs → P x → All P (xs ++ x ∷ [])
All-snoc P [] x a p = (p, tt)
All-snoc P (y ∷ xs) x a p = (a.0, All-snoc P xs x a.1 p)

-- The indices, from `i` on, of the nodes in the component `c`.
abbrev pub positions : ℕ → ℕ → List (Option ℕ) → List ℕ
positions c i [] = []
positions c i (none ∷ cs) = positions c (i + 1) cs
positions c i (some d ∷ cs) =
    if nat_beq d c then i ∷ positions c (i + 1) cs else positions c (i + 1) cs

-- What `collect_members` makes of some buckets: their indices are below a bound, and each bucket has
-- grown by the indices of its component.
pub record Collected (bound i : ℕ) (members : List (List ℕ)) (cs : List (Option ℕ))
    (groups : List (List ℕ)) : Type 0 where
  pub size : length groups ≡ length members
  pub all : All (All (λ j. j < bound)) groups
  pub grown :
      (c : ℕ) (bucket : List ℕ)
      → get_elem? members c ≡ some bucket
      → get_elem? groups c ≡ some (bucket ++ positions c i cs)

pub collect_members-Collected :
    (bound count : ℕ) (members : List (List ℕ)) (i : ℕ) (cs : List (Option ℕ))
    → i + length cs ≤ bound
    → length members ≡ count
    → ((v : ℕ) → v < length cs → HasComponent count cs v)
    → All (All (λ j. j < bound)) members
    → (groups : List (List ℕ)) × (collect_members members i cs ≡ some groups)
      × Collected bound i members cs groups
unfolding collect_members
collect_members-Collected bound count members i [] h l has a = (
  members,
  refl,
  record { size = refl; all = a; grown = λ c bucket e. e ∙ ap some (sym (append_nil bucket)) },
)
collect_members-Collected bound count members i (none ∷ cs) h l has a =
    let (c, e, b) = has 0 (omega arith) in absurd (ground (arith, e))
collect_members-Collected bound count members i (some d ∷ cs) h l has a =
    let (c, e, b) = has 0 (omega arith) in
    let at_d : d ≡ c = ground (arith, e) in
    let (bucket, q) = get_elem?_bound members d (omega (arith, b, l, at_d)) in
    let members' = set members d (bucket ++ i ∷ []) in
    let old = All-get (All (λ j. j < bound)) members d bucket a q in
    let fresh : All (λ j. j < bound) (bucket ++ i ∷ []) =
      All-snoc (λ j. j < bound) bucket i old (omega (arith, h)) in
    let (groups, r, k) =
      collect_members-Collected bound count members' (i + 1) cs (omega (arith, h))
        (length-set members d (bucket ++ i ∷ []) ∙ l) (λ v u. has (suc v) (omega (arith, u)))
        (All-set (All (λ j. j < bound)) members d (bucket ++ i ∷ []) a fresh) in
    (
      groups,
      rw (q, collect_members) r,
      record {
        size = k.size ∙ length-set members d (bucket ++ i ∷ []);
        all = k.all;
        grown = λ c b p. elim (Bool-cases (nat_beq d c)) [
          | inl t ↦
              let at : get_elem? members' c ≡ some (bucket ++ i ∷ []) =
                subst (λ x. get_elem? members' x ≡ some (bucket ++ i ∷ [])) (same_node d c t)
                  (set_same members d (bucket ++ i ∷ []) bucket q) in
              let here : get_elem? members c ≡ some bucket =
                subst (λ x. get_elem? members x ≡ some bucket) (same_node d c t) q in
              let eq : bucket ≡ b = same bucket b (sym here ∙ p) in
              rw t (
                k.grown c (bucket ++ i ∷ []) at
                ∙ ap some (sym (append_cons bucket i (positions c (i + 1) cs)))
                ∙ ap (λ x. some (x ++ i ∷ positions c (i + 1) cs)) eq)
          | inr f ↦ rw f (k.grown c b (set_other members d c (bucket ++ i ∷ []) f ∙ p))
        ];
      },
    )

pub get-repeat : (k c : ℕ) → c < k → get_elem? (repeat {A = List ℕ} k []) c ≡ some []
unfolding repeat
get-repeat zero c h = absurd (omega (arith, h))
get-repeat (suc k) zero h = refl
get-repeat (suc k) (suc c) h = get-repeat k c (omega (arith, h))

pub repeat-All : (P : ℕ → Type 0) (k : ℕ) → All (All P) (repeat k [])
unfolding repeat
repeat-All P zero = tt
repeat-All P (suc k) = (tt, repeat-All P k)
