-- ===== src/Common/Int.antt =====
-- Signed integers, for numbers that the program reads and that may be negative.
use Prim.Native.Nat.{ℕ, zero, suc, ◌+◌}
use mathlib.Core.List.{◌∷◌}
use codespine.Common.Keys.{Text}
use codespine.Common.Strings.{show}

-- `negsuc n` is -(n + 1).
pub data ℤ : Type 0 where
  pos : ℕ → ℤ
  negsuc : ℕ → ℤ

-- `n > 0 ? n : 0`
abbrev pub clip : ℤ → ℕ
clip (pos n) = n
clip (negsuc n) = 0

-- `n + 1`
unfoldable pub increment : ℤ → ℤ
increment (pos n) = pos (suc n)
increment (negsuc zero) = pos 0
increment (negsuc (suc n)) = negsuc n

-- `${n}`
unfoldable pub show_int : ℤ → Text
unfolding show
show_int (pos n) = show n
show_int (negsuc n) = b'-' ∷ show (n + 1)
