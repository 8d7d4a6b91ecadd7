-- ===== src/Common/Lists.antt =====
-- Lists measured and indexed by native numbers, under the library's names, and predicates on lists.
use Prim.Native.Nat.{ℕ, zero, suc, ◌+◌, ◌≤◌, ◌<◌}
use mathlib.Core.Path.{◌≡◌, refl, ap}
use mathlib.Core.Logic.{◌⊎◌}
use mathlib.Core.Bool.{Bool, true, false}
use mathlib.Core.Option.{Option, none, some}
use mathlib.Core.List.{List, [], ◌∷◌, ◌++◌, map}
use native.Mathlib.Omega.{arith}
use codespine.Common.Tests.{if◌then◌else◌, nat_beq}

module _ {ℓ} {A : Type ℓ} where
  abbrev pub length : List A → ℕ
  length [] = 0
  length (x ∷ xs) = suc (length xs)

  abbrev pub get_elem? : List A → ℕ → Option A
  get_elem? [] i = none
  get_elem? (x ∷ xs) zero = some x
  get_elem? (x ∷ xs) (suc i) = get_elem? xs i

  -- A write out of bounds changes nothing.
  abbrev pub set : List A → ℕ → A → List A
  set [] i v = []
  set (x ∷ xs) zero v = v ∷ xs
  set (x ∷ xs) (suc i) v = x ∷ set xs i v

  abbrev pub take : ℕ → List A → List A
  take zero xs = []
  take (suc n) [] = []
  take (suc n) (x ∷ xs) = x ∷ take n xs

  abbrev pub drop : ℕ → List A → List A
  drop zero xs = xs
  drop (suc n) [] = []
  drop (suc n) (x ∷ xs) = drop n xs

  -- `xs.filter(p)` by a Boolean test.
  abbrev pub filter : (A → Bool) → List A → List A
  filter p [] = []
  filter p (x ∷ xs) = if p x then x ∷ filter p xs else filter p xs

  -- `xs.some(p)`
  abbrev pub any : (A → Bool) → List A → Bool
  any p [] = false
  any p (x ∷ xs) = if p x then true else any p xs

  -- The sum of a measure over a list.
  abbrev pub sum_by : (A → ℕ) → List A → ℕ
  sum_by f [] = 0
  sum_by f (x ∷ xs) = f x + sum_by f xs

  pub length-append : (xs ys : List A) → length (xs ++ ys) ≡ length xs + length ys
  length-append [] ys = omega arith
  length-append (x ∷ xs) ys = omega (arith, length-append xs ys)

  pub get_elem?-snoc :
      (xs : List A) (x : A) (i : ℕ)
      → get_elem? (xs ++ x ∷ []) i ≡ (if nat_beq i (length xs) then some x else get_elem? xs i)
  get_elem?-snoc [] x zero = refl
  get_elem?-snoc [] x (suc i) = ground arith
  get_elem?-snoc (y ∷ xs) x zero = ground arith
  get_elem?-snoc (y ∷ xs) x (suc i) = ground (arith, get_elem?-snoc xs x i)

  -- An index with an element is within the list.
  pub get_elem?_in_bounds : (xs : List A) (i : ℕ) (x : A) → get_elem? xs i ≡ some x → i < length xs
  get_elem?_in_bounds [] i x h = absurd (ground (arith, h))
  get_elem?_in_bounds (y ∷ xs) zero x h = omega arith
  get_elem?_in_bounds (y ∷ xs) (suc i) x h = omega (arith, get_elem?_in_bounds xs i x h)

  pub append_nil : (xs : List A) → xs ++ [] ≡ xs
  append_nil [] = refl
  append_nil (x ∷ xs) = ap (◌∷◌ x) (append_nil xs)

  pub append_cons : (xs : List A) (y : A) (ys : List A) → xs ++ y ∷ ys ≡ (xs ++ y ∷ []) ++ ys
  append_cons [] y ys = refl
  append_cons (x ∷ xs) y ys = ap (◌∷◌ x) (append_cons xs y ys)

  pub length-take-le : (n : ℕ) (xs : List A) → length (take n xs) ≤ n
  length-take-le zero xs = omega arith
  length-take-le (suc n) [] = omega arith
  length-take-le (suc n) (x ∷ xs) = omega (arith, length-take-le n xs)

  pub take-append-drop : (n : ℕ) (xs : List A) → take n xs ++ drop n xs ≡ xs
  take-append-drop zero xs = refl
  take-append-drop (suc n) [] = refl
  take-append-drop (suc n) (x ∷ xs) = ap (◌∷◌ x) (take-append-drop n xs)

  pub length-set : (xs : List A) (i : ℕ) (v : A) → length (set xs i v) ≡ length xs
  length-set [] i v = refl
  length-set (x ∷ xs) zero v = refl
  length-set (x ∷ xs) (suc i) v = ap suc (length-set xs i v)

  pub sum_by-append : (f : A → ℕ) (xs ys : List A) → sum_by f (xs ++ ys) ≡ sum_by f xs + sum_by f ys
  sum_by-append f [] ys = omega arith
  sum_by-append f (x ∷ xs) ys = omega (arith, sum_by-append f xs ys)

-- Every element satisfies `P`; a product, which the tactics read.
module _ {ℓ κ} {A : Type ℓ} where
  abbrev pub All : (A → Type κ) → List A → Type κ
  All P [] = Unit
  All P (x ∷ xs) = P x × All P xs

  pub All-append : (P : A → Type κ) (xs ys : List A) → All P xs → All P ys → All P (xs ++ ys)
  All-append P [] ys p q = q
  All-append P (x ∷ xs) ys p q = (p.0, All-append P xs ys p.1 q)

  pub All-take : (P : A → Type κ) (n : ℕ) (xs : List A) → All P xs → All P (take n xs)
  All-take P zero xs p = tt
  All-take P (suc n) [] p = tt
  All-take P (suc n) (x ∷ xs) p = (p.0, All-take P n xs p.1)

  pub All-drop : (P : A → Type κ) (n : ℕ) (xs : List A) → All P xs → All P (drop n xs)
  All-drop P zero xs p = p
  All-drop P (suc n) [] p = tt
  All-drop P (suc n) (x ∷ xs) p = All-drop P n xs p.1

  pub All-of : (P : A → Type κ) → ((x : A) → P x) → (xs : List A) → All P xs
  All-of P h [] = tt
  All-of P h (x ∷ xs) = (h x, All-of P h xs)

-- Membership by recursion.
module _ {A : Type 0} where
  abbrev pub In : A → List A → Type 0
  In a [] = ⊥
  In a (x ∷ xs) = (a ≡ x) ⊎ In a xs

pub All-map {ℓ κ μ} :
    {A : Type ℓ} {B : Type κ} (P : B → Type μ) (f : A → B)
    → ((x : A) → P (f x))
    → (xs : List A) → All P (map f xs)
All-map P f h [] = tt
All-map P f h (x ∷ xs) = (h x, All-map P f h xs)

-- The results of a partial function along a list.
abbrev pub collect {ℓ κ} : {A : Type ℓ} {B : Type κ} → (A → Option B) → List A → List B
collect f [] = []
collect f (x ∷ xs) = elim (f x) [ none ↦ collect f xs | some y ↦ y ∷ collect f xs ]

module _ {ℓ κ} {A : Type ℓ} {B : Type κ} (f : A → Option B) (x : A) (xs : List A) where
  pub collect-none : f x ≡ none → collect f (x ∷ xs) ≡ collect f xs
  collect-none e = rw (e, collect) refl

  pub collect-some : (y : B) → f x ≡ some y → collect f (x ∷ xs) ≡ y ∷ collect f xs
  collect-some y e = rw (e, collect) refl
