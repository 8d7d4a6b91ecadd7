-- ===== src/Common/First.antt =====
-- The first of a list that is sorted: `[...xs].sort(compare)[0]`.
use Prim.Native.Nat.{Ordering}
use mathlib.Core.Path.{◌≡◌, refl, sym, subst}
use mathlib.Core.Logic.{◌≢◌, inl, inr}
use mathlib.Core.List.{List, [], ◌∷◌}
use native.Mathlib.Omega.{arith}
use codespine.Common.Lists.{All, In}
use codespine.Common.Sort.{insert, sort, IsComparator, IsSorted, sort-IsSorted, sort-All}

module _ {A : Type 0} where
  In-All : (P : A → Type 0) (xs : List A) → ((x : A) → In x xs → P x) → All P xs
  In-All P [] h = tt
  In-All P (x ∷ xs) h = (h x (inl refl), In-All P xs (λ y i. h y (inr i)))

  module _ (cmp : A → A → Ordering) where
    insert-back : (P : A → Type 0) (x : A) (ys : List A) → All P (insert cmp x ys) → P x × All P ys
    unfolding insert
    insert-back P x [] h = h
    insert-back P x (y ∷ ys) h =
        elim (cmp x y)
            as (λ o.
              All P (elim o [ Ordering.gt ↦ y ∷ insert cmp x ys | _ ↦ x ∷ y ∷ ys ])
              → P x × (P y × All P ys)) [
                | Ordering.gt ↦ λ k. let r = insert-back P x ys k.1 in (r.0, (k.0, r.1))
                | _ ↦ λ k. k
              ]
          h

    -- What holds of all of a sorted list holds of all that was sorted.
    pub sort-back : (P : A → Type 0) (xs : List A) → All P (sort cmp xs) → All P xs
    unfolding sort
    sort-back P [] h = tt
    sort-back P (x ∷ xs) h = let r = insert-back P x (sort cmp xs) h in (r.0, sort-back P xs r.1)

    -- The first of the sorted list is an element, and no element comes before it.
    abbrev pub IsFirst : List A → A → Type 0
    IsFirst xs y = In y xs × All (λ x. cmp y x ≢ Ordering.gt) xs

    pub sort-IsFirst :
        IsComparator cmp → (xs : List A) (y : A) (ys : List A) → sort cmp xs ≡ y ∷ ys → IsFirst xs y
    sort-IsFirst c xs y ys e =
        let members : All (λ z. In z xs) (sort cmp xs) =
          sort-All cmp (λ z. In z xs) xs (In-All (λ z. In z xs) xs (λ z i. i)) in
        let sorted = subst (IsSorted cmp) e (sort-IsSorted cmp c xs) in
        let own : cmp y y ≢ Ordering.gt = ground (arith, c.flips y y) in
        let first : All (λ x. cmp y x ≢ Ordering.gt) (sort cmp xs) =
          subst (All (λ x. cmp y x ≢ Ordering.gt)) (sym e) (own, sorted.0) in
        ((subst (All (λ z. In z xs)) e members).0, sort-back (λ x. cmp y x ≢ Ordering.gt) xs first)
