-- ===== src/Common/Maps.antt =====
-- Lists under `map`.
use mathlib.Core.Path.{◌≡◌, refl, ap}
use mathlib.Core.List.{List, [], ◌∷◌, map}
use codespine.Common.Lists.{All}

pub map-id_of {ℓ} : {A : Type ℓ} (xs : List A) → map (λ x. x) xs ≡ xs
map-id_of [] = refl
map-id_of (x ∷ xs) = ap (◌∷◌ x) (map-id_of xs)

module _ {ℓ κ} {A : Type ℓ} {B : Type κ} where
  pub map-ext : (f g : A → B) → ((x : A) → f x ≡ g x) → (xs : List A) → map f xs ≡ map g xs
  map-ext f g h [] = refl
  map-ext f g h (x ∷ xs) = rw (h x, map-ext f g h xs) refl

  -- Functions that agree on the elements map them alike.
  pub map-All : (f g : A → B) (xs : List A) → All (λ x. f x ≡ g x) xs → map f xs ≡ map g xs
  map-All f g [] p = refl
  map-All f g (x ∷ xs) p = rw (p.0, map-All f g xs p.1) refl

  pub map-map {μ} :
      {C : Type μ} (g : B → C) (f : A → B) (xs : List A) → map g (map f xs) ≡ map (λ x. g (f x)) xs
  map-map g f [] = refl
  map-map g f (x ∷ xs) = ap (◌∷◌ (g (f x))) (map-map g f xs)
