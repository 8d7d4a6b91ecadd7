-- ===== src/Common/Sort.antt =====
-- `xs.sort(compare)`: a stable sort, as the language specifies. A comparator answers with an
-- `Ordering` for the sign of its number, and `||` between comparators is `or_else`.
use Prim.Native.Nat.{ℕ, zero, suc, ◌+◌, ◌≤◌, compare, Ordering}
use mathlib.Core.Path.{◌≡◌, refl, ap}
use mathlib.Core.Logic.{◌≢◌, ◌⊎◌, inl, inr}
use mathlib.Core.List.{List, [], ◌∷◌, ◌++◌, Perm}
use mathlib.Core.List.Perm
use native.Mathlib.Omega.{arith}
use codespine.Common.Lists.{
  All, All-take, length, sum_by, take, drop, take-append-drop, length-take-le,
}

abbrev pub or_else : Ordering → Ordering → Ordering
or_else Ordering.lt _ = Ordering.lt
or_else Ordering.eq o = o
or_else Ordering.gt _ = Ordering.gt

abbrev pub flip : Ordering → Ordering
flip Ordering.lt = Ordering.gt
flip Ordering.eq = Ordering.eq
flip Ordering.gt = Ordering.lt

-- A consistent comparator, as `sort` expects it.
pub record IsComparator {ℓ} {A : Type ℓ} (cmp : A → A → Ordering) : Type ℓ where
  pub flips : (a b : A) → cmp b a ≡ flip (cmp a b)
  pub trans : (a b c : A) → cmp a b ≢ Ordering.gt → cmp b c ≢ Ordering.gt → cmp a c ≢ Ordering.gt

module _ {ℓ} {A : Type ℓ} where
  module _ (cmp : A → A → Ordering) where
    -- `x` stood before the whole of the list, so it goes in front of its equals.
    unfoldable pub insert : A → List A → List A
    insert x [] = x ∷ []
    insert x (y ∷ ys) = elim (cmp x y) [ Ordering.gt ↦ y ∷ insert x ys | _ ↦ x ∷ y ∷ ys ]

    unfoldable pub sort : List A → List A
    unfolding insert
    sort [] = []
    sort (x ∷ xs) = insert x (sort xs)

    -- Every element is allowed before all that follow it.
    abbrev pub IsSorted : List A → Type ℓ
    IsSorted [] = Unit
    IsSorted (x ∷ xs) = All (λ y. cmp x y ≢ Ordering.gt) xs × IsSorted xs

    insert-perm : (x : A) (ys : List A) → Perm (insert x ys) (x ∷ ys)
    unfolding insert
    insert-perm x [] = Perm.refl _
    insert-perm x (y ∷ ys) =
        elim (cmp x y)
          as (λ o. Perm (elim o [ Ordering.gt ↦ y ∷ insert x ys | _ ↦ x ∷ y ∷ ys ]) (x ∷ y ∷ ys)) [
            | Ordering.gt ↦ Perm.trans (Perm.cons y (insert-perm x ys)) (Perm.swap x y ys)
            | _ ↦ Perm.refl _
          ]

    pub sort-perm : (xs : List A) → Perm (sort xs) xs
    unfolding sort
    sort-perm [] = Perm.refl _
    sort-perm (x ∷ xs) = Perm.trans (insert-perm x (sort xs)) (Perm.cons x (sort-perm xs))

    insert-All {κ} : (P : A → Type κ) (x : A) (ys : List A) → P x → All P ys → All P (insert x ys)
    unfolding insert
    insert-All P x [] p q = (p, tt)
    insert-All P x (y ∷ ys) p q = ground (arith, insert-All P x ys)

    module _ (h : IsComparator cmp) where
      above :
          (x y : A) (ys : List A)
          → cmp x y ≢ Ordering.gt
          → All (λ z. cmp y z ≢ Ordering.gt) ys
          → All (λ z. cmp x z ≢ Ordering.gt) ys
      above x y [] p q = tt
      above x y (z ∷ zs) p q = (h.trans x y z p q.0, above x y zs p q.1)

      insert-IsSorted : (x : A) (ys : List A) → IsSorted ys → IsSorted (insert x ys)
      unfolding insert
      insert-IsSorted x [] s = (tt, tt)
      insert-IsSorted x (y ∷ ys) s = ground (
        arith,
        above x y ys,
        h.flips x y,
        insert-All (λ z. cmp y z ≢ Ordering.gt) x ys,
        insert-IsSorted x ys,
      )

      pub sort-IsSorted : (xs : List A) → IsSorted (sort xs)
      unfolding sort
      sort-IsSorted [] = tt
      sort-IsSorted (x ∷ xs) = insert-IsSorted x (sort xs) (sort-IsSorted xs)

    pub sort-All {κ} : (P : A → Type κ) (xs : List A) → All P xs → All P (sort xs)
    unfolding sort
    sort-All P [] p = tt
    sort-All P (x ∷ xs) p = insert-All P x (sort xs) p.0 (sort-All P xs p.1)

    insert-sum_by : (f : A → ℕ) (x : A) (ys : List A) → sum_by f (insert x ys) ≡ f x + sum_by f ys
    unfolding insert
    insert-sum_by f x [] = refl
    insert-sum_by f x (y ∷ ys) = ground (arith, insert-sum_by f x ys)

    pub sort-sum_by : (f : A → ℕ) (xs : List A) → sum_by f (sort xs) ≡ sum_by f xs
    unfolding sort
    sort-sum_by f [] = refl
    sort-sum_by f (x ∷ xs) = omega (arith, insert-sum_by f x (sort xs), sort-sum_by f xs)

    insert-length : (x : A) (ys : List A) → length (insert x ys) ≡ suc (length ys)
    unfolding insert
    insert-length x [] = refl
    insert-length x (y ∷ ys) = ground (arith, insert-length x ys)

    pub length-sort : (xs : List A) → length (sort xs) ≡ length xs
    unfolding sort
    length-sort [] = refl
    length-sort (x ∷ xs) = omega (arith, insert-length x (sort xs), length-sort xs)

-- `a || b` of two consistent comparators is consistent.
pub or_else-IsComparator {ℓ} :
    {A : Type ℓ} {c d : A → A → Ordering}
    → IsComparator c
    → IsComparator d
    → IsComparator (λ x y. or_else (c x y) (d x y))
or_else-IsComparator {c} {d} p q = record {
  flips = λ a b. ground (arith, p.flips a b, q.flips a b);
  trans = λ x y z h k. ground (
    arith,
    p.trans x y z,
    p.flips x y,
    p.flips y z,
    p.flips x z,
    p.trans y z x,
    p.trans z x y,
    q.trans x y z,
  );
}

-- Comparing by a number, ascending: `f(a) - f(b)`.
pub by_number-IsComparator {ℓ} :
    {A : Type ℓ} (f : A → ℕ) → IsComparator (λ a b. compare (f a) (f b))
by_number-IsComparator f = record { flips = λ a b. ground arith; trans = λ a b c h k. ground arith }

-- The reverse of a consistent comparator: `compare(b, a)`.
pub reverse-IsComparator {ℓ} :
    {A : Type ℓ} {c : A → A → Ordering} → IsComparator c → IsComparator (λ a b. c b a)
reverse-IsComparator p = record {
  flips = λ a b. p.flips b a;
  trans = λ x y z h k. p.trans z y x k h;
}

-- Comparing by a key.
pub by_key-IsComparator {ℓ κ} :
    {A : Type ℓ} {B : Type κ} (f : A → B) {c : B → B → Ordering}
    → IsComparator c
    → IsComparator (λ a b. c (f a) (f b))
by_key-IsComparator f p = record {
  flips = λ a b. p.flips (f a) (f b);
  trans = λ x y z h k. p.trans (f x) (f y) (f z) h k;
}

-- `xs.sort(compare).slice(0, limit)`
unfoldable pub top {ℓ} : {A : Type ℓ} → (A → A → Ordering) → ℕ → List A → List A
unfolding sort
top cmp limit xs = take limit (sort cmp xs)

-- `result` is the first `limit` of `xs` in the order: it comes with the items that were left out,
-- together they are `xs` rearranged and sorted, and items are left out only if the result is full.
abbrev pub IsTop {ℓ} : {A : Type ℓ} → (A → A → Ordering) → ℕ → List A → List A → Type ℓ
IsTop {A} cmp limit xs result =
    (rest : List A) × Perm (result ++ rest) xs
    × IsSorted cmp (result ++ rest)
    × (length result ≤ limit)
    × ((rest ≡ []) ⊎ (length result ≡ limit))

take_full {ℓ} : {A : Type ℓ} (n : ℕ) (xs : List A) → (drop n xs ≡ []) ⊎ (length (take n xs) ≡ n)
take_full zero xs = inr refl
take_full (suc n) [] = inl refl
take_full (suc n) (x ∷ xs) = elim (take_full n xs) [ inl e ↦ inl e | inr e ↦ inr (ap suc e) ]

pub top-IsTop {ℓ} :
    {A : Type ℓ} {cmp : A → A → Ordering} (limit : ℕ) (xs : List A)
    → IsComparator cmp
    → IsTop cmp limit xs (top cmp limit xs)
unfolding top
top-IsTop {cmp} limit xs h = (
  drop limit (sort cmp xs),
  rw (take-append-drop limit (sort cmp xs)) (sort-perm cmp xs),
  rw (take-append-drop limit (sort cmp xs)) (sort-IsSorted cmp h xs),
  length-take-le limit (sort cmp xs),
  take_full limit (sort cmp xs),
)

pub top-All {ℓ κ} :
    {A : Type ℓ} (P : A → Type κ) (cmp : A → A → Ordering) (limit : ℕ) (xs : List A)
    → All P xs
    → All P (top cmp limit xs)
unfolding top
top-All P cmp limit xs h = All-take P limit (sort cmp xs) (sort-All cmp P xs h)

take-IsSorted {ℓ} :
    {A : Type ℓ} (cmp : A → A → Ordering) (n : ℕ) (xs : List A)
    → IsSorted cmp xs
    → IsSorted cmp (take n xs)
take-IsSorted cmp zero xs h = tt
take-IsSorted cmp (suc n) [] h = tt
take-IsSorted cmp (suc n) (x ∷ xs) h = (All-take _ n xs h.0, take-IsSorted cmp n xs h.1)

pub top-IsSorted {ℓ} :
    {A : Type ℓ} {cmp : A → A → Ordering} (limit : ℕ) (xs : List A)
    → IsComparator cmp
    → IsSorted cmp (top cmp limit xs)
unfolding top
top-IsSorted {cmp} limit xs h = take-IsSorted cmp limit (sort cmp xs) (sort-IsSorted cmp h xs)

pub length-top_le {ℓ} :
    {A : Type ℓ} (cmp : A → A → Ordering) (limit : ℕ) (xs : List A)
    → length (top cmp limit xs) ≤ limit
unfolding top
length-top_le cmp limit xs = length-take-le limit (sort cmp xs)
