-- ===== src/Common/Keys.antt =====
-- Keys that `===` compares, and text as the list of its UTF-16 code units.
use Prim.Native.Nat.{ℕ}
use Prim.Native.Char.{code}
use Prim.Native.String.{String}
use mathlib.Core.Path.{◌≡◌}
use mathlib.Core.Logic.{◌↔◌}
use mathlib.Core.Bool.{Bool, true, false}
use mathlib.Core.List.{List, [], ◌∷◌}
use native.Mathlib.Omega.{arith}
use codespine.Common.Tests.{nat_beq, nat_beq_iff, if◌then◌else◌}

-- A JavaScript string.
abbrev pub Text : Type 0
Text = List ℕ

-- A string literal of the source.
abbrev pub codes : String → Text
codes String.[] = []
codes (String.◌∷◌ c s) = code c ∷ codes s

unfoldable pub text_eq : Text → Text → Bool
text_eq [] [] = true
text_eq [] (d ∷ t) = false
text_eq (c ∷ s) [] = false
text_eq (c ∷ s) (d ∷ t) = if nat_beq c d then text_eq s t else false

pub text_eq_iff : (s t : Text) → (text_eq s t ≡ true) ↔ (s ≡ t)
unfolding text_eq
text_eq_iff [] [] = ground arith
text_eq_iff [] (d ∷ t) = ground arith
text_eq_iff (c ∷ s) [] = ground arith
text_eq_iff (c ∷ s) (d ∷ t) = ground (arith, text_eq_iff s t)

-- What may be the key of a map or an element of a set.
pub record Key {ℓ} (K : Type ℓ) : Type ℓ where
  pub same : K → K → Bool
  pub same_iff : (j k : K) → (same j k ≡ true) ↔ (j ≡ k)

-- `j === k`
infix 50 ◌==◌
abbrev pub ◌==◌ {ℓ} : {K : Type ℓ} ⦃key : Key K⦄ → K → K → Bool
◌==◌ ⦃key⦄ = key.same

instance abbrev pub nat_key : Key ℕ
nat_key = record { same = nat_beq; same_iff = nat_beq_iff }

instance abbrev pub text_key : Key Text
text_key = record { same = text_eq; same_iff = text_eq_iff }

-- `xs.includes(a)`, and `has` of a set given by its elements.
unfoldable pub includes {ℓ} : {A : Type ℓ} ⦃e : Key A⦄ → List A → A → Bool
includes [] a = false
includes (x ∷ xs) a = if x == a then true else includes xs a
