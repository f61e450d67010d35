-- ===== src/Common/Ratio.antt =====
-- Amounts, prices and fractions that the terminal keeps in floats, as exact quotients that are not
-- negative, compared multiplied out.
use Prim.Native.Nat.{ℕ, ◌*◌, ◌/◌, ◌≤◌, ◌<◌}
use mathlib.Core.Bool.{Bool}
use anqa_core.Common.Tests.{ltb, leb, ◌==◌}

pub record Ratio : Type 0 where
  pub num : ℕ
  pub den : ℕ

abbrev pub whole : ℕ → Ratio
whole n = record { num = n; den = 1 }

abbrev pub IsRatio : Ratio → Type 0
IsRatio r = 0 < r.den

infixl 70 ◌*ᵣ◌
abbrev pub ◌*ᵣ◌ : Ratio → Ratio → Ratio
a *ᵣ b = record { num = a.num * b.num; den = a.den * b.den }

-- The tests `r === 0`, `a < b` and `a <= b`.
abbrev pub is_zero : Ratio → Bool
is_zero r = r.num == 0

abbrev pub lt_ratio : Ratio → Ratio → Bool
lt_ratio a b = ltb (a.num * b.den) (b.num * a.den)

abbrev pub le_ratio : Ratio → Ratio → Bool
le_ratio a b = leb (a.num * b.den) (b.num * a.den)

infix 50 ◌≤ᵣ◌ ◌<ᵣ◌
abbrev pub ◌≤ᵣ◌ : Ratio → Ratio → Type 0
a ≤ᵣ b = a.num * b.den ≤ b.num * a.den

abbrev pub ◌<ᵣ◌ : Ratio → Ratio → Type 0
a <ᵣ b = a.num * b.den < b.num * a.den

-- `Math.floor(a / b)`, for a divisor above 0.
unfoldable pub floor_ratio : Ratio → Ratio → ℕ
floor_ratio a b = (a.num * b.den) / (a.den * b.num)
