-- ===== src/Common/Digits.antt =====
-- `Number(s)` on decimal digits, and keys that are two numbers with a code unit between them.
use Prim.Native.Nat.{ℕ, zero, suc, ◌+◌, ◌-◌, ◌*◌, ◌/◌, ◌%◌, ◌<◌}
use mathlib.Core.Path.{◌≡◌, refl, ◌∙◌, ap}
use mathlib.Core.Logic.{inl, inr}
use native.Mathlib.Omega.{arith}
use mathlib.Core.Bool.{Bool, true, false, ◌&&◌}
use mathlib.Core.Option.{Option, none, some}
use mathlib.Core.List.{[], ◌∷◌, ◌++◌}
use codespine.Common.Tests.{nat_beq, nat_beq_iff, ltb, leb, if◌then◌else◌, Bool-cases}
use codespine.Common.Lists.{length, take, drop, All}
use codespine.Common.Keys.{Text}
use codespine.Common.Strings.{show, digits_fuel, index_of}

abbrev is_digit : ℕ → Bool
is_digit c = leb b'0' c && leb c b'9'

-- `Number(s)`, where `s` is digits only; `none` is anything else.
unfoldable pub number_of : ℕ → Text → Option ℕ
number_of acc [] = some acc
number_of acc (c ∷ s) =
    let rest = number_of (acc * 10 + (c - b'0')) s in if is_digit c then rest else none

digit_test : (d : ℕ) → d < 10 → is_digit (b'0' + d) ≡ true
digit_test d h = ground (arith, h)

digit_value : (d : ℕ) → b'0' + d - b'0' ≡ d
digit_value d = omega arith

number_of_digit :
    (acc d : ℕ) (s : Text) → d < 10 → number_of acc ((b'0' + d) ∷ s) ≡ number_of (acc * 10 + d) s
unfolding number_of
number_of_digit acc d s h = rw (digit_test d h, digit_value d) refl

small : (n : ℕ) → ltb n 10 ≡ true → 0 * 10 + n % 10 ≡ n
small n t = ground (arith, t)

large : (n f : ℕ) → ltb n 10 ≡ false → n < suc f → n / 10 < f
large n f r h = ground (arith, r, h)

number_of-digits_fuel :
    (f n : ℕ) (acc : Text) → n < f → number_of 0 (digits_fuel f n acc) ≡ number_of n acc
unfolding digits_fuel
number_of-digits_fuel zero n acc h = absurd (omega (arith, h))
number_of-digits_fuel (suc f) n acc h =
    let d = n % 10 in
    let e = number_of_digit (n / 10) d acc (omega arith) in
    elim (Bool-cases (ltb n 10)) [
      | inl t ↦ rw t (number_of_digit 0 d acc (omega arith) ∙ ap (λ k. number_of k acc) (small n t))
      | inr r ↦ rw r (
          number_of-digits_fuel f (n / 10) ((b'0' + d) ∷ acc) (large n f r h)
          ∙ e
          ∙ ap (λ k. number_of k acc) (omega arith))
    ]

-- A decimal number reads back as itself.
number_of-show : (n : ℕ) → number_of 0 (show n) ≡ some n
unfolding show number_of
number_of-show n = number_of-digits_fuel (suc n) n [] (omega arith)

digit_other : (d : ℕ) → d < 10 → nat_beq (b'0' + d) b':' ≡ false
digit_other d h = ground (arith, h)

-- The code units of a decimal number are digits.
abbrev IsOther : ℕ → ℕ → Type 0
IsOther c d = nat_beq d c ≡ false

digits_fuel-All :
    (f n : ℕ) (acc : Text) → All (IsOther b':') acc → All (IsOther b':') (digits_fuel f n acc)
unfolding digits_fuel
digits_fuel-All zero n acc h = h
digits_fuel-All (suc f) n acc h =
    let h' : All (IsOther b':') ((b'0' + n % 10) ∷ acc) = (digit_other (n % 10) (omega arith), h) in
    elim (Bool-cases (ltb n 10)) [
      | inl t ↦ rw t h'
      | inr r ↦ rw r (digits_fuel-All f (n / 10) ((b'0' + n % 10) ∷ acc) h')
    ]

show-All : (n : ℕ) → All (IsOther b':') (show n)
unfolding show
show-All n = digits_fuel-All (suc n) n [] tt

-- The first separator of a text is where the part before it ends.
index_of-append :
    (c : ℕ) (s t : Text) → All (IsOther c) s → index_of (s ++ c ∷ t) c ≡ some (length s)
unfolding index_of
index_of-append c [] t h = rw ((nat_beq_iff c c).1 refl) refl
index_of-append c (d ∷ s) t h = rw (h.0, index_of-append c s t h.1) refl

take-append : (s t : Text) → take (length s) (s ++ t) ≡ s
take-append [] t = refl
take-append (c ∷ s) t = ap (◌∷◌ c) (take-append s t)

drop-append : (s t : Text) (c : ℕ) → drop (suc (length s)) (s ++ c ∷ t) ≡ t
drop-append [] t c = refl
drop-append (d ∷ s) t c = drop-append s t c

-- `${low}:${high}`
unfoldable pub pair_key : ℕ → ℕ → Text
pair_key low high = show low ++ b':' ∷ show high

-- `Number(key.slice(0, separator))`; without a separator the slice ends before the last code unit.
unfoldable pub key_low : Text → Option ℕ
key_low key = elim (index_of key b':') [
  | some i ↦ number_of 0 (take i key)
  | none ↦ number_of 0 (take (length key - 1) key)
]

-- `Number(key.slice(separator + 1))`
unfoldable pub key_high : Text → Option ℕ
key_high key = elim (index_of key b':') [
  | some i ↦ number_of 0 (drop (suc i) key)
  | none ↦ number_of 0 key
]

key_low_at :
    (key : Text) (i : ℕ) → index_of key b':' ≡ some i → key_low key ≡ number_of 0 (take i key)
unfolding key_low
key_low_at key i e = rw (e, key_low) refl

key_high_at :
    (key : Text) (i : ℕ)
    → index_of key b':' ≡ some i
    → key_high key ≡ number_of 0 (drop (suc i) key)
unfolding key_high
key_high_at key i e = rw (e, key_high) refl

index_of-pair_key : (low high : ℕ) → index_of (pair_key low high) b':' ≡ some (length (show low))
unfolding pair_key
index_of-pair_key low high = index_of-append b':' (show low) (show high) (show-All low)

pub key_low-pair_key : (low high : ℕ) → key_low (pair_key low high) ≡ some low
unfolding pair_key
key_low-pair_key low high =
    key_low_at (pair_key low high) (length (show low)) (index_of-pair_key low high)
    ∙ ap (number_of 0) (take-append (show low) (b':' ∷ show high))
    ∙ number_of-show low

pub key_high-pair_key : (low high : ℕ) → key_high (pair_key low high) ≡ some high
unfolding pair_key
key_high-pair_key low high =
    key_high_at (pair_key low high) (length (show low)) (index_of-pair_key low high)
    ∙ ap (number_of 0) (drop-append (show low) (show high) b':')
    ∙ number_of-show high
