-- ===== src/Portfolio/Tests.antt =====
-- The accounts' layout on concrete bytes, and each theorem of the portfolio at one of them.

use anqa_core.Common.{
  ℕ, zero, suc, ◌≡◌, refl, Bool, true, false, List, [], ◌∷◌, ◌++◌, ltb, ◌&&◌, arith,
}
use anqa_core.Common.Int.{ℤ, pos, negsuc, ◌+ℤ◌, ◌-ℤ◌}
use anqa_core.Portfolio.{Bytes, KernelState, read_kernel, free_margin, equity}
use anqa_core.Portfolio.Words.{IsBytes, le_bytes, pattern_of}
use anqa_core.Portfolio.Legs.{
  Leg, AllLegs, encode_leg, encode_legs, position_of, positions_of, read_kernel-encode_legs,
}
use anqa_core.Portfolio.Raw.{total_committed_collateral, fold_committed, saturating_add}

abbrev pub zeros : ℕ → Bytes
zeros zero = []
zeros (suc n) = 0 ∷ zeros n

abbrev all_bytes : Bytes → Bool
all_bytes [] = true
all_bytes (x ∷ b) = ltb x 256 && all_bytes b

pub IsBytes-of : (b : Bytes) → all_bytes b ≡ true → IsBytes b
IsBytes-of [] h = tt
IsBytes-of (x ∷ b) h = ground (arith, IsBytes-of b)

abbrev pub leg : ℕ → ℕ → ℕ → ℤ → Leg
leg active asset side basis = record {
  active = active;
  asset_index = asset;
  skipped = zeros 8;
  side = side;
  basis = basis;
  tail = zeros 114;
}

-- A long of 3 lots in asset 2, an inactive leg, a short of 5 lots in asset 7, and an empty leg.
abbrev pub four_legs : List Leg
four_legs =
    leg 1 2 0 (pos 3_000_000)
    ∷ leg 0 4 0 (pos 9_000_000)
    ∷ leg 1 7 1 (negsuc 4_999_999)
    ∷ leg 1 5 0 (pos 0)
    ∷ []

abbrev pub before_legs : Bytes
before_legs = zeros 340

pub four_legs-AllLegs : AllLegs four_legs
four_legs-AllLegs = ground arith

pub four_legs-IsBytes : IsBytes (before_legs ++ encode_legs four_legs [])
unfolding encode_legs encode_leg le_bytes pattern_of
four_legs-IsBytes = IsBytes-of (before_legs ++ encode_legs four_legs []) refl

read_kernel-encode_legs_example :
    (read_kernel (before_legs ++ encode_legs four_legs [])).positions ≡ positions_of four_legs
read_kernel-encode_legs_example =
    read_kernel-encode_legs four_legs before_legs [] four_legs-AllLegs refl refl four_legs-IsBytes

four_legs-positions :
    positions_of four_legs
    ≡ record { asset_index = 2; is_long = true; lots = 3 }
      ∷ record { asset_index = 7; is_long = false; lots = 5 }
      ∷ []
unfolding positions_of position_of
four_legs-positions = refl

-- Twelve collaterals.
abbrev pub words : List ℕ
words = 1_000_000 ∷ 0 ∷ 250 ∷ 7 ∷ 0 ∷ 0 ∷ 0 ∷ 0 ∷ 0 ∷ 0 ∷ 0 ∷ 31 ∷ []

words-total : total_committed_collateral words ≡ 1_000_288
unfolding total_committed_collateral fold_committed saturating_add
words-total = refl

-- 900 certified, 400 committed to positions.
abbrev pub certified : KernelState
certified = record {
  capital = 700;
  pnl = pos 150;
  certified_equity = pos 900;
  initial_requirement = 400;
  cert_is_valid = true;
  positions = [];
}

abbrev pub uncertified : KernelState
uncertified = record certified { cert_is_valid = false; pnl = negsuc 49 }

certified-free : (free_margin certified 100 ≡ pos 400) × (free_margin uncertified 100 ≡ pos 150)
unfolding free_margin equity ◌+ℤ◌ ◌-ℤ◌
certified-free = (refl, refl)
