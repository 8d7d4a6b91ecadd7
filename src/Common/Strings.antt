-- ===== src/Common/Strings.antt =====
-- The string operations that the program uses, over UTF-16 code units.
use Prim.Native.Nat.{ℕ, zero, suc, ◌+◌, ◌-◌, ◌/◌, ◌%◌, compare, Ordering}
use mathlib.Core.Path.{◌≡◌, refl}
use mathlib.Core.Logic.{◌≢◌}
use native.Mathlib.Omega.{arith}
use mathlib.Core.Bool.{Bool, true, false}
use mathlib.Core.Option.{Option, none, some}
use mathlib.Core.List.{List, [], ◌∷◌, ◌++◌}
use codespine.Common.Tests.{nat_beq, ltb, if◌then◌else◌}
use codespine.Common.Lists.{length, drop}
use codespine.Common.Sort.{flip, IsComparator}
use codespine.Common.Keys.{Text, text_eq}

-- `s.startsWith(p)`
unfoldable pub starts_with : Text → Text → Bool
starts_with s [] = true
starts_with [] (c ∷ p) = false
starts_with (d ∷ s) (c ∷ p) = if nat_beq d c then starts_with s p else false

-- `s.endsWith(p)`
unfoldable pub ends_with : Text → Text → Bool
ends_with s p =
    if ltb (length s) (length p) then false else text_eq (drop (length s - length p) s) p

-- `s.includes(p)`
unfoldable pub contains : Text → Text → Bool
unfolding starts_with
contains [] p = starts_with [] p
contains (c ∷ s) p = if starts_with (c ∷ s) p then true else contains s p

-- `s.lastIndexOf(c)` for one code unit; `none` is -1.
unfoldable pub last_index_of : Text → ℕ → Option ℕ
last_index_of [] c = none
last_index_of (d ∷ s) c = elim (last_index_of s c) [
  | some i ↦ some (suc i)
  | none ↦ if nat_beq d c then some 0 else none
]

-- `s.indexOf(c)` for one code unit; `none` is -1.
unfoldable pub index_of : Text → ℕ → Option ℕ
index_of [] c = none
index_of (d ∷ s) c =
    if nat_beq d c then some 0 else elim (index_of s c) [ none ↦ none | some i ↦ some (suc i) ]

-- `s.split(c)` for one code unit: never empty.
unfoldable pub split : ℕ → Text → List Text
split c [] = [] ∷ []
split c (d ∷ s) =
    if nat_beq d c
    then [] ∷ split c s
    else elim (split c s) [ [] ↦ (d ∷ []) ∷ [] | w ∷ ws ↦ (d ∷ w) ∷ ws ]

-- `parts.join(c)` for one code unit.
unfoldable pub join : ℕ → List Text → Text
join c [] = []
join c (w ∷ []) = w
join c (w ∷ v ∷ ws) = w ++ c ∷ join c (v ∷ ws)

-- `a < b`, `a === b` and `a > b` of two strings: the order of their code units.
unfoldable pub compare_text : Text → Text → Ordering
compare_text [] [] = Ordering.eq
compare_text [] (d ∷ t) = Ordering.lt
compare_text (c ∷ s) [] = Ordering.gt
compare_text (c ∷ s) (d ∷ t) = elim (compare c d) [
  | Ordering.lt ↦ Ordering.lt
  | Ordering.gt ↦ Ordering.gt
  | Ordering.eq ↦ compare_text s t
]

-- The decimal digits of a template's number.
unfoldable pub digits_fuel : ℕ → ℕ → Text → Text
digits_fuel zero n acc = acc
digits_fuel (suc f) n acc =
    let acc' = (b'0' + n % 10) ∷ acc in
    let rest = digits_fuel f (n / 10) acc' in if ltb n 10 then acc' else rest

-- `${n}`: a number has at most as many digits as it has units, plus one.
unfoldable pub show : ℕ → Text
unfolding digits_fuel
show n = digits_fuel (suc n) n []

compare_text_flips : (s t : Text) → compare_text t s ≡ flip (compare_text s t)
unfolding compare_text
compare_text_flips [] [] = refl
compare_text_flips [] (d ∷ t) = refl
compare_text_flips (c ∷ s) [] = refl
compare_text_flips (c ∷ s) (d ∷ t) = ground (arith, compare_text_flips s t)

compare_text_trans :
    (s t u : Text)
    → compare_text s t ≢ Ordering.gt
    → compare_text t u ≢ Ordering.gt
    → compare_text s u ≢ Ordering.gt
unfolding compare_text
compare_text_trans [] [] u p q = q
compare_text_trans [] (d ∷ t) [] p q = absurd (q refl)
compare_text_trans [] (d ∷ t) (e ∷ u) p q = λ h. cc
compare_text_trans (c ∷ s) [] u p q = absurd (p refl)
compare_text_trans (c ∷ s) (d ∷ t) [] p q = absurd (q refl)
compare_text_trans (c ∷ s) (d ∷ t) (e ∷ u) p q = ground (arith, compare_text_trans s t u)

-- The order of code units is consistent.
pub compare_text-IsComparator : IsComparator compare_text
compare_text-IsComparator = record { flips = compare_text_flips; trans = compare_text_trans }
