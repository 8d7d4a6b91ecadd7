-- ===== src/Query/Radius/Correct.antt =====
-- The walk visits exactly the ancestors of its start over the reversed calls.
use codespine.Common.{
  ℕ, zero, suc, ◌≡◌, ◌≢◌, refl, subst, ◌↔◌, ◌⊎◌, inl, inr, true, false, not, some, List, [], ◌∷◌,
  ◌++◌, arith, Text, if◌then◌else◌, includes, text_key, text_eq, text_eq_iff, Bool-cases, length,
  filter,
}
use mathlib.Core.Option.{some-injective}
use codespine.Query.Radius.{
  Callers, callers_of, push_unvisited, walk, walk_fuel, ancestors, reachable_count,
}
use codespine.Query.Radius.Reach.{includes-append_one, ancestors_end}

-- `a` calls `start`, or calls what reaches it.
pub data Reaches (m : Callers) (start : Text) : Text → Type 0 where
  direct : {a : Text} → includes (callers_of m start) a ≡ true → Reaches m start a
  through :
      {b a : Text} → Reaches m start b → includes (callers_of m b) a ≡ true → Reaches m start a

includes-push_unvisited :
    (v ns st : List Text) (a : Text)
    → includes (push_unvisited v ns st) a
      ≡ (if includes st a then true else if includes v a then false else includes ns a)
unfolding includes push_unvisited
includes-push_unvisited v [] st a = ground arith
includes-push_unvisited v (n ∷ ns) st a =
    ground
      (arith, includes-push_unvisited v ns (if includes v n then st else n ∷ st) a, text_eq_iff n a)

module _ (m : Callers) (start : Text) where
  record Inv (v st : List Text) : Type 0 where
    sound_v : (a : Text) → includes v a ≡ true → Reaches m start a
    sound_s : (a : Text) → includes st a ≡ true → Reaches m start a
    starts :
        (a : Text)
        → includes (callers_of m start) a ≡ true
        → (includes v a ≡ true) ⊎ (includes st a ≡ true)
    closed :
        (b a : Text)
        → includes v b ≡ true
        → includes (callers_of m b) a ≡ true
        → (includes v a ≡ true) ⊎ (includes st a ≡ true)

  Inv-start : Inv [] (push_unvisited [] (callers_of m start) [])
  unfolding includes
  Inv-start = record {
    sound_v = λ a h. cc;
    sound_s = λ a h. direct (ground (arith, includes-push_unvisited [] (callers_of m start) [] a));
    starts = λ a h. ground (arith, includes-push_unvisited [] (callers_of m start) [] a);
    closed = λ b a h k. cc;
  }

  -- An id that is visited already leaves the stack.
  Inv-skip : (v st : List Text) (id : Text) → includes v id ≡ true → Inv v (id ∷ st) → Inv v st
  unfolding includes
  Inv-skip v st id old i = record {
    sound_v = i.sound_v;
    sound_s = λ a h. i.sound_s a (ground arith);
    starts = λ a h. ground (arith, i.starts a h, text_eq_iff id a);
    closed = λ b a h k. ground (arith, i.closed b a h k, text_eq_iff id a);
  }

  -- A new id is visited, and its callers go on the stack.
  Inv-visit :
      (v st : List Text) (id : Text)
      → Inv v (id ∷ st)
      → Inv (v ++ id ∷ []) (push_unvisited (v ++ id ∷ []) (callers_of m id) st)
  unfolding includes
  Inv-visit v st id i = record {
    sound_v = λ a h. elim (Bool-cases (includes v a)) [
      | inl p ↦ i.sound_v a p
      | inr q ↦ i.sound_s a (ground (arith, includes-append_one v id a))
    ];
    sound_s = λ a h. elim (Bool-cases (includes st a)) [
      | inl p ↦ i.sound_s a (ground arith)
      | inr q ↦
          through (i.sound_s id (ground (arith, text_eq_iff id id)))
            (ground (arith, includes-push_unvisited (v ++ id ∷ []) (callers_of m id) st a))
    ];
    starts = λ a h. ground (
      arith,
      i.starts a h,
      includes-append_one v id a,
      includes-push_unvisited (v ++ id ∷ []) (callers_of m id) st a,
    );
    closed = λ b a h k. ground (
      arith,
      i.closed b a,
      includes-append_one v id a,
      includes-append_one v id b,
      text_eq_iff id b,
      includes-push_unvisited (v ++ id ∷ []) (callers_of m id) st a,
    );
  }

  walk-Inv : (fuel : ℕ) (v st r : List Text) → Inv v st → walk m fuel v st ≡ some r → Inv r []
  unfolding walk
  walk-Inv zero v [] r i h = subst (λ w. Inv w []) (some-injective v r h) i
  walk-Inv zero v (id ∷ st) r i h = cc
  walk-Inv (suc fuel) v [] r i h = subst (λ w. Inv w []) (some-injective v r h) i
  walk-Inv (suc fuel) v (id ∷ st) r i h = elim (Bool-cases (includes v id)) [
    | inl old ↦ walk-Inv fuel v st r (Inv-skip v st id old i) (rw (old, walk) at h)
    | inr new ↦ walk-Inv fuel _ _ r (Inv-visit v st id i) (rw (new, walk) at h)
  ]

  complete : (r : List Text) → Inv r [] → {a : Text} → Reaches m start a → includes r a ≡ true
  unfolding includes
  complete r i (direct {a} h) = ground (arith, i.starts a h)
  complete r i (through {b} {a} p h) = ground (arith, i.closed b a (complete r i p) h)

  visited_iff :
      (r : List Text)
      → ancestors start m ≡ some r
      → (a : Text) → (includes r a ≡ true) ↔ Reaches m start a
  unfolding ancestors
  visited_iff r e a =
      let i = walk-Inv (walk_fuel m) [] _ r Inv-start e in (i.sound_v a, complete r i)

-- No id twice.
abbrev pub Distinct : List Text → Type 0
Distinct [] = Unit
Distinct (x ∷ xs) = (includes xs x ≡ false) × Distinct xs

Distinct-append_one :
    (xs : List Text) (y : Text) → includes xs y ≡ false → Distinct xs → Distinct (xs ++ y ∷ [])
unfolding includes
Distinct-append_one [] y h d = (refl, tt)
Distinct-append_one (x ∷ xs) y h d =
    ground (
      arith,
      Distinct-append_one xs y,
      includes-append_one xs y x,
      text_eq_iff x y,
      text_eq_iff y x,
    )

walk-Distinct :
    (m : Callers) (fuel : ℕ) (v st r : List Text)
    → Distinct v
    → walk m fuel v st ≡ some r
    → Distinct r
unfolding walk
walk-Distinct m zero v [] r d h = subst Distinct (some-injective v r h) d
walk-Distinct m zero v (id ∷ st) r d h = cc
walk-Distinct m (suc fuel) v [] r d h = subst Distinct (some-injective v r h) d
walk-Distinct m (suc fuel) v (id ∷ st) r d h = elim (Bool-cases (includes v id)) [
  | inl old ↦ walk-Distinct m fuel v st r d (rw (old, walk) at h)
  | inr new ↦
      walk-Distinct m fuel (v ++ id ∷ []) (push_unvisited (v ++ id ∷ []) (callers_of m id) st) r
        (Distinct-append_one v id new d) (rw (new, walk) at h)
]

includes-without :
    (start : Text) (xs : List Text) (a : Text)
    → includes (filter (λ id. not (text_eq id start)) xs) a
      ≡ (if text_eq a start then false else includes xs a)
unfolding includes
includes-without start [] a = ground arith
includes-without start (x ∷ xs) a =
    ground (
      arith,
      includes-without start xs a,
      text_eq_iff x a,
      text_eq_iff x start,
      text_eq_iff a start,
    )

Distinct-without :
    (start : Text) (xs : List Text)
    → Distinct xs
    → Distinct (filter (λ id. not (text_eq id start)) xs)
Distinct-without start [] d = tt
Distinct-without start (x ∷ xs) d =
    ground (arith, Distinct-without start xs d.1, includes-without start xs x)

-- For every call graph, cycles included, `reachableCount` ends and counts the transitive callers of
-- `start` other than itself: its answer is the length of a list without repetitions whose members
-- are exactly those callers.
pub reachable_count_correct :
    (start : Text) (m : Callers)
    → (r : List Text) × (reachable_count start m ≡ some (length r))
      × Distinct r
      × ((a : Text) → (includes r a ≡ true) ↔ (Reaches m start a × (a ≢ start)))
unfolding reachable_count
reachable_count_correct start m =
    let (v, e) = ancestors_end start m in
    let others = filter (λ id. not (text_eq id start)) v in
    (
      others,
      rw (e, reachable_count),
      Distinct-without start v (
          unfold ancestors in
          walk-Distinct m (walk_fuel m) [] (push_unvisited [] (callers_of m start) []) v tt e),
      λ a. (
        λ h. (
          (visited_iff m start v e a).0 (ground (arith, includes-without start v a)),
          λ p. ground (arith, includes-without start v a, text_eq_iff a start),
        ),
        λ h. ground (
          arith,
          includes-without start v a,
          text_eq_iff a start,
          (visited_iff m start v e a).1 h.0,
          h.1,
        ),
      ),
    )
