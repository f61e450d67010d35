-- ===== src/Positions/Removal.antt =====
-- What the modal offers against what the program accepts.
use native.Mathlib.Nat.{mul-div-le, le_of_mul-le-mul_right}
use anqa_core.Common.{
  ℕ, ◌+◌, ◌-◌, ◌*◌, ◌^◌, ◌<◌, ◌≤◌, ◌≡◌, true, false, some, ◌==◌, if◌then◌else◌, arith,
}
use anqa_core.Common.Int.{pos, +ℤ_parts}
use anqa_core.Common.Ratio.{Ratio, IsRatio}
use anqa_core.Keeper.Position.{Held}
use anqa_core.Keeper.Isolated.{pnl_of}
use anqa_core.Positions.{
  remove, Row, max_remove, cap_of, over_cap, can_submit, amount_of, accepted, zero_amount,
  removal_unsafe, clears_initial, judge_remove,
}

-- The row of a position whose mark and entry are known.
abbrev pub known_row : Held → ℕ → ℕ → Row
known_row leg mark entry = record { leg = leg; entry = some entry; mark = some mark }

scaled :
    (a den num c : ℕ)
    → 0 < den
    → a * (2 * den) ≤ 2 * (1_000_000 * num) + den
    → 10_000 * 1_000_000 * num ≤ c * den
    → 20_000 * a ≤ 2 * c + 10_000
scaled a den num c some_den low high = scaled_down
  where
    times : 20_000 * a * den ≤ (2 * c + 10_000) * den
    times = grind arith

    scaled_down : 20_000 * a ≤ 2 * c + 10_000
    scaled_down = le_of_mul-le-mul_right times some_den

-- What is submitted, rounded to whole atoms, exceeds the cap by little more than half an atom.
amount_of-offered :
    (slip : ℕ) (row : Row) (free committed : ℕ) (n : Ratio)
    → IsRatio n
    → can_submit slip false remove row free committed n ≡ true
    → 20_000 * amount_of n ≤ 2 * (max_remove row committed + 10 + slip) + 10_000
unfolding can_submit over_cap cap_of amount_of
amount_of-offered slip row free committed n some_den offered =
    scaled (amount_of n) n.den n.num (max_remove row committed + 10 + slip) some_den
      (grind (arith, mul-div-le (2 * (1_000_000 * n.num) + n.den) (2 * n.den)))
      (ground (arith, offered))

-- A removal that the modal submits, of a row whose mark and entry are those the program reads, and of the
-- same committed amount, where doubles add at most four tenths of an atom to the cap, and the notional
-- stays within the program's 128 bits: the program, where the market is not paused, the signer may trade,
-- the refresh goes through and the mark is live, accepts it, unless it rounds to no atom, which is refused
-- as zero, or takes all that is committed, which is refused as unsafe.
pub can_submit-remove :
    (leg : Held) (mark entry free committed slip : ℕ) (n : Ratio)
    → IsRatio n
    → slip ≤ 4_000
    → mark * leg.lots * 500 < 2 ^ 128
    → can_submit slip false remove (known_row leg mark entry) free committed n ≡ true
    → judge_remove mark entry (some leg) committed (amount_of n) ≡ (
        if amount_of n == 0
        then zero_amount
        else if amount_of n == committed
        then removal_unsafe
        else accepted)
unfolding judge_remove max_remove clears_initial
can_submit-remove leg mark entry free committed slip n some_den little fits offered =
    let pnl = pnl_of mark entry leg in
    let near =
      amount_of-offered slip (known_row leg mark entry) free committed n some_den offered in
    ground (
      arith,
      near,
      little,
      fits,
      +ℤ_parts (pos committed) pnl,
      +ℤ_parts (pos (committed - amount_of n)) pnl,
    )
