-- ===== src/Common/Rebuild.antt =====
-- A map made from another by a loop over its entries, and the counts of a loop over keys.
use Prim.Native.Nat.{ℕ, ◌+◌}
use mathlib.Core.Path.{◌≡◌, refl, sym, ap, ◌∙◌}
use mathlib.Core.Logic.{inl, inr}
use mathlib.Core.Option.{none, some}
use mathlib.Core.Bool.{true}
use mathlib.Core.List.{List, [], ◌∷◌, ◌++◌, map}
use native.Mathlib.Omega.{arith}
use codespine.Common.Tests.{if◌then◌else◌, get_or, Bool-cases}
use codespine.Common.Lists.{length, sum_by, All, All-of, append_cons, append_nil}
use codespine.Common.Keys.{Key, ◌==◌}
use codespine.Common.JsMap.{
  JsMap, get, set, get-set, has, has-set, values, sum_by-set_more, UniqueKeys, set-UniqueKeys,
}

module _ {ℓ κ} {K : Type ℓ} {W : Type κ} ⦃e : Key K⦄ where
  pub set-absent : (m : JsMap K W) (k : K) (w : W) → get m k ≡ none → set m k w ≡ m ++ (k, w) ∷ []
  unfolding get set
  set-absent [] k w h = refl
  set-absent ((i, u) ∷ m) k w h = elim (Bool-cases (i == k)) [
    | inl t ↦ absurd (ground (arith, t, h))
    | inr f ↦ rw f (ap (◌∷◌ (i, u)) (set-absent m k w (ground (arith, f, h))))
  ]

module _ {ℓ κ μ} {K : Type ℓ} {V : Type κ} {W : Type μ} ⦃e : Key K⦄ where
  -- `for (const [k, v] of m) result.set(k, f(k, v))`
  unfoldable pub rebuild : (K → V → W) → JsMap K V → JsMap K W → JsMap K W
  rebuild f [] result = result
  rebuild f ((k, v) ∷ m) result = rebuild f m (set result k (f k v))

  set-All_absent :
      (m : JsMap K V) (result : JsMap K W) (k : K) (w : W)
      → get m k ≡ none
      → All (λ (x : K × V). get result x.0 ≡ none) m
      → All (λ (x : K × V). get (set result k w) x.0 ≡ none) m
  unfolding get
  set-All_absent [] result k w h a = tt
  set-All_absent ((i, v) ∷ m) result k w h a = (
    get-set result k i w ∙ ground (arith, e.same_iff k i, e.same_iff i k, h, a.0),
    set-All_absent m result k w (ground (arith, h)) a.1,
  )

  rebuild-append :
      (f : K → V → W) (m : JsMap K V) (result : JsMap K W)
      → UniqueKeys m
      → All (λ (x : K × V). get result x.0 ≡ none) m
      → rebuild f m result ≡ result ++ map (λ x. (x.0, f x.0 x.1)) m
  unfolding rebuild
  rebuild-append f [] result u a = sym (append_nil result)
  rebuild-append f ((k, v) ∷ m) result u a =
      rebuild-append f m (set result k (f k v)) u.1 (set-All_absent m result k (f k v) u.0 a.1)
      ∙ rw (set-absent result k (f k v) a.0)
          (sym (append_cons result (k, f k v) (map (λ x. (x.0, f x.0 x.1)) m)))

  -- On a map, whose keys are distinct, the loop keeps the order of the entries.
  pub rebuild-map :
      (f : K → V → W) (m : JsMap K V)
      → UniqueKeys m
      → rebuild f m [] ≡ map (λ x. (x.0, f x.0 x.1)) m
  unfolding get
  rebuild-map f m u =
      rebuild-append f m [] u (All-of (λ (x : K × V). get {V = W} [] x.0 ≡ none) (λ x. refl) m)

  pub rebuild-UniqueKeys :
      (f : K → V → W) (m : JsMap K V) (result : JsMap K W)
      → UniqueKeys result
      → UniqueKeys (rebuild f m result)
  unfolding rebuild
  rebuild-UniqueKeys f [] result u = u
  rebuild-UniqueKeys f ((k, v) ∷ m) result u =
      rebuild-UniqueKeys f m (set result k (f k v)) (set-UniqueKeys result k (f k v) u)

  -- The loop keeps the keys.
  pub has-rebuild :
      (f : K → V → W) (m : JsMap K V) (result : JsMap K W) (k : K)
      → has (rebuild f m result) k ≡ (if has result k then true else has m k)
  unfolding rebuild has
  has-rebuild f [] result k = ground arith
  has-rebuild f ((j, v) ∷ m) result k =
      has-rebuild f m (set result j (f j v)) k ∙ ground (arith, has-set result j k (f j v))

module _ {ℓ} {K : Type ℓ} ⦃e : Key K⦄ where
  -- `counts.set(key, (counts.get(key) ?? 0) + 1)` for each of some keys.
  unfoldable pub tally_keys : List K → JsMap K ℕ → JsMap K ℕ
  tally_keys [] counts = counts
  tally_keys (key ∷ rest) counts = tally_keys rest (set counts key (get_or (get counts key) 0 + 1))

  abbrev pub occurrences : K → List K → ℕ
  occurrences key [] = 0
  occurrences key (k ∷ ks) = if k == key then 1 + occurrences key ks else occurrences key ks

  -- The count under a key grows by the number of its occurrences.
  pub get-tally_keys :
      (ks : List K) (counts : JsMap K ℕ) (key : K)
      → get_or (get (tally_keys ks counts) key) 0 ≡ get_or (get counts key) 0 + occurrences key ks
  unfolding tally_keys
  get-tally_keys [] counts key = omega arith
  get-tally_keys (k ∷ ks) counts key =
      get-tally_keys ks (set counts k (get_or (get counts k) 0 + 1)) key
      ∙ elim (Bool-cases (k == key)) [
        | inl t ↦
            rw (get-set counts k key (get_or (get counts k) 0 + 1), t, (e.same_iff k key).0 t)
              (omega arith)
        | inr f ↦ rw (get-set counts k key (get_or (get counts k) 0 + 1), f) refl
      ]

  -- From an empty map, the counts are the numbers of occurrences.
  pub tally_keys-occurrences :
      (ks : List K) (key : K) → get_or (get (tally_keys ks []) key) 0 ≡ occurrences key ks
  unfolding get
  tally_keys-occurrences ks key = get-tally_keys ks [] key ∙ omega arith

  pub tally_keys-UniqueKeys :
      (ks : List K) (counts : JsMap K ℕ) → UniqueKeys counts → UniqueKeys (tally_keys ks counts)
  unfolding tally_keys
  tally_keys-UniqueKeys [] counts u = u
  tally_keys-UniqueKeys (k ∷ ks) counts u =
      tally_keys-UniqueKeys ks (set counts k (get_or (get counts k) 0 + 1))
        (set-UniqueKeys counts k (get_or (get counts k) 0 + 1) u)

  -- The counts grow by one for each key.
  pub tally_keys-sum_by :
      (ks : List K) (counts : JsMap K ℕ)
      → sum_by (λ i. i) (values (tally_keys ks counts))
        ≡ sum_by (λ i. i) (values counts) + length ks
  unfolding tally_keys
  tally_keys-sum_by [] counts = omega arith
  tally_keys-sum_by (k ∷ ks) counts =
      let old = get_or (get counts k) 0 in
      let more = sum_by-set_more (λ i. i) counts k 0 (old + 1) 1 refl refl in
      omega (arith, tally_keys-sum_by ks (set counts k (old + 1)), more)

module _ {ℓ κ} {K : Type ℓ} {V : Type κ} ⦃e : Key K⦄ where
  found_behind :
      (m xs : JsMap K V) (k : K) (v : V)
      → get m k ≡ none
      → All (λ (x : K × V). get m x.0 ≡ some x.1) xs
      → All (λ (x : K × V). get ((k, v) ∷ m) x.0 ≡ some x.1) xs
  unfolding get
  found_behind m [] k v h a = tt
  found_behind m ((j, w) ∷ xs) k v h a = (
    elim (Bool-cases (k == j)) [
      | inl t ↦ let q = (e.same_iff k j).0 t in absurd (ground (arith, sym h ∙ ap (get m) q ∙ a.0))
      | inr f ↦ rw f a.0
    ],
    found_behind m xs k v h a.1,
  )

  -- A map whose keys are distinct holds each of its entries.
  pub UniqueKeys-get : (m : JsMap K V) → UniqueKeys m → All (λ (x : K × V). get m x.0 ≡ some x.1) m
  unfolding get
  UniqueKeys-get [] u = tt
  UniqueKeys-get ((k, v) ∷ m) u =
      (rw ((e.same_iff k k).1 refl) refl, found_behind m m k v u.0 (UniqueKeys-get m u.1))
