-- ===== src/Common/JsMap.antt =====
-- JavaScript's `Map`: entries in insertion order; `set` on a present key writes in place.
use codespine.Common.Tests.{if◌then◌else◌, get_or, Bool-cases}
use codespine.Common.Lists.{sum_by, length}
use codespine.Common.Keys.{Key, ◌==◌}
use Prim.Native.Nat.{ℕ, suc, ◌+◌, ◌≤◌}
use mathlib.Core.Path.{◌≡◌, refl}
use mathlib.Core.Logic.{inl, inr}
use mathlib.Core.Bool.{Bool, true, false}
use mathlib.Core.Option.{Option, none, some}
use mathlib.Core.List.{List, [], ◌∷◌, map}
use native.Mathlib.Omega.{arith}

abbrev pub JsMap {ℓ κ} : Type ℓ → Type κ → Type (ℓ ⊔ κ)
JsMap K V = List (K × V)

module _ {ℓ κ} {K : Type ℓ} {V : Type κ} where
  -- `[...m.keys()]`, `[...m.values()]`
  abbrev pub keys : JsMap K V → List K
  keys m = map (λ e. e.0) m

  abbrev pub values : JsMap K V → List V
  values m = map (λ e. e.1) m

-- The measure of what stands under a key, 0 where nothing does.
abbrev pub measure_at {ℓ} : {V : Type ℓ} → (V → ℕ) → Option V → ℕ
measure_at f none = 0
measure_at f (some v) = f v

module _ {ℓ κ} {K : Type ℓ} {V : Type κ} ⦃e : Key K⦄ where
  unfoldable pub get : JsMap K V → K → Option V
  get [] k = none
  get ((j, v) ∷ m) k = if j == k then some v else get m k

  unfoldable pub set : JsMap K V → K → V → JsMap K V
  set [] k v = (k, v) ∷ []
  set ((j, w) ∷ m) k v = if j == k then (j, v) ∷ m else (j, w) ∷ set m k v

  unfoldable pub has : JsMap K V → K → Bool
  has [] k = false
  has ((j, v) ∷ m) k = if j == k then true else has m k

  pub get-set :
      (m : JsMap K V) (k j : K) (v : V) → get (set m k v) j ≡ (if k == j then some v else get m j)
  unfolding get set
  get-set [] k j v = refl
  get-set ((i, w) ∷ m) k j v =
      ground (arith, e.same_iff k j, e.same_iff i k, e.same_iff i j, get-set m k j v)

  pub get-set_self : (m : JsMap K V) (k : K) (v : V) → get (set m k v) k ≡ some v
  get-set_self m k v = rw (get-set m k k v, (e.same_iff k k).1 refl)

  pub set-set : (m : JsMap K V) (k : K) (v w : V) → set (set m k v) k w ≡ set m k w
  unfolding set
  set-set [] k v w = rw ((e.same_iff k k).1 refl)
  set-set ((i, u) ∷ m) k v w = ground (arith, set-set m k v w)

  pub has-set :
      (m : JsMap K V) (k j : K) (v : V) → has (set m k v) j ≡ (if k == j then true else has m j)
  unfolding has set
  has-set [] k j v = refl
  has-set ((i, w) ∷ m) k j v =
      ground (arith, e.same_iff k j, e.same_iff i k, e.same_iff i j, has-set m k j v)

  pub get_absent : (m : JsMap K V) (k : K) → has m k ≡ false → get m k ≡ none
  unfolding get has
  get_absent [] k h = refl
  get_absent ((i, w) ∷ m) k h = ground (arith, get_absent m k)

  pub get_present : (m : JsMap K V) (k : K) → has m k ≡ true → (v : V) × (get m k ≡ some v)
  unfolding get has
  get_present [] k h = absurd (ground (arith, h))
  get_present ((i, w) ∷ m) k h = elim (Bool-cases (i == k)) [
    | inl t ↦ (w, rw t refl)
    | inr f ↦ let r = get_present m k (ground (arith, f, h)) in (r.0, rw f r.1)
  ]

  -- The sum of a measure over the values moves by what `set` writes over.
  pub sum_by-set :
      (f : V → ℕ) (m : JsMap K V) (k : K) (v : V)
      → sum_by f (values (set m k v)) + measure_at f (get m k) ≡ sum_by f (values m) + f v
  unfolding get set
  sum_by-set f [] k v = omega arith
  sum_by-set f ((i, w) ∷ m) k v = ground (arith, sum_by-set f m k v)

  -- `m.set(k, v)` where `v` measures `n` more than what stood there, or than the default `d`.
  pub sum_by-set_more :
      (f : V → ℕ) (m : JsMap K V) (k : K) (d v : V) (n : ℕ)
      → f d ≡ 0
      → f v ≡ f (get_or (get m k) d) + n
      → sum_by f (values (set m k v)) ≡ sum_by f (values m) + n
  sum_by-set_more f m k d v n h e = ground (arith, sum_by-set f m k v)

  pub length-set_le : (m : JsMap K V) (k : K) (v : V) → length (set m k v) ≤ suc (length m)
  unfolding set
  length-set_le [] k v = omega arith
  length-set_le ((i, w) ∷ m) k v = ground (arith, length-set_le m k v)

  -- No key occurs twice.
  abbrev pub UniqueKeys : JsMap K V → Type κ
  UniqueKeys [] = Unit
  UniqueKeys ((k, v) ∷ m) = (get m k ≡ none) × UniqueKeys m

  pub set-UniqueKeys : (m : JsMap K V) (k : K) (v : V) → UniqueKeys m → UniqueKeys (set m k v)
  unfolding set get
  set-UniqueKeys [] k v u = ground arith
  set-UniqueKeys ((i, w) ∷ m) k v u =
      ground (arith, e.same_iff i k, e.same_iff k i, set-UniqueKeys m k v, get-set m k i v)
