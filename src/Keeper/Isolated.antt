-- ===== src/Keeper/Isolated.antt =====
-- app/keeper.ts: the decision of `isolatedSweep`, which holders it calls `liquidate_isolated` for, and
-- its agreement with `isolated_underwater` of programs/anqa-core/src/instructions/close_position.rs.
-- Numbers are exact here, as the floats of the sweep are while what it computes stays below 2^53: the
-- bound is a hypothesis of the agreement. The quotient by 10,000 is compared multiplied out: an integer
-- differs from it by a fortieth or more if at all, which no rounding below 2^53 hides. The program's 128-bit arithmetic on profits is taken without overflow, as its build
-- checks it. The price that goes with the call is left out.
use anqa_core.Common.{
  ℕ, ◌+◌, ◌-◌, ◌*◌, ◌/◌, ◌^◌, ◌<◌, ◌≡◌, Bool, true, false, not, ◌&&◌, ◌||◌, Option, none, some,
  List, [], ◌∷◌, ltb, ◌==◌, if◌then◌else◌, min, arith,
}
use anqa_core.Common.Int.{ℤ, pos, pos_part, neg_part, sub_ℕ, ◌+ℤ◌, ◌*ℤ◌, leb_ℤ}
use anqa_core.Portfolio.{Bytes}
use anqa_core.Keeper.Position.{Held, read_u64_le, read_position, collateral_at, entry_at}

-- `pnl` of the sweep, and of the program.
unfoldable pub pnl_of : ℕ → ℕ → Held → ℤ
unfolding ◌*ℤ◌
pnl_of mark entry leg =
    if leg.is_long then sub_ℕ mark entry *ℤ pos leg.lots else sub_ℕ entry mark *ℤ pos leg.lots

-- `!(collateral + pnl > (mark * leg.lots * 250) / 10_000)`
unfoldable pub spent : ℕ → ℕ → ℕ → Held → Bool
unfolding ◌+ℤ◌
spent mark collateral entry leg =
    let margin = pos collateral +ℤ pnl_of mark entry leg in
    not (ltb (mark * leg.lots * 250 + 10_000 * neg_part margin) (10_000 * pos_part margin))

abbrev pub judge_leg : ℕ → ℕ → ℕ → Option Held → Bool
judge_leg mark collateral entry none = false
judge_leg mark collateral entry (some leg) =
    if leg.lots == 0 then false else spent mark collateral entry leg

-- One holder's account: whether the sweep calls for its liquidation; `none` is a RangeError.
unfoldable pub check_holder : ℕ → ℕ → Option Bytes → Option Bool
check_holder mark asset none = some false
check_holder mark asset (some account) = elim (read_u64_le account (collateral_at + asset * 16)) [
  | none ↦ none
  | some collateral ↦ elim (read_u64_le account (entry_at + asset * 16)) [
    | none ↦ none
    | some entry ↦
        if (collateral == 0) || (entry == 0)
        then some false
        else elim (read_position account asset) [
          | none ↦ none
          | some leg ↦ some (judge_leg mark collateral entry leg)
        ]
  ]
]

-- The accounts that the pass over `positionHolders` calls for, in order, and whether it has ended
-- without a throw. A refused call is swallowed; where the oracle cannot be read nothing is done.
unfoldable pub isolated_sweep : Option ℕ → ℕ → List (ℕ × Option Bytes) → List ℕ × Bool
unfolding check_holder
isolated_sweep none asset holders = ([], true)
isolated_sweep (some mark) asset [] = ([], true)
isolated_sweep (some mark) asset ((id, account) ∷ holders) =
    let (called, ended) = isolated_sweep (some mark) asset holders in
    elim (check_holder mark asset account) [
      | none ↦ ([], false)
      | some true ↦ (id ∷ called, ended)
      | some false ↦ (called, ended)
    ]

-- `u128::saturating_mul`
abbrev pub saturating_mul : ℕ → ℕ → ℕ
saturating_mul a b = min (a * b) (2 ^ 128 - 1)

-- `isolated_underwater` of the program.
unfoldable pub isolated_underwater : ℕ → ℕ → ℕ → Held → Bool
unfolding ◌+ℤ◌
isolated_underwater collateral entry mark leg =
    let maintenance = saturating_mul (saturating_mul mark leg.lots) 250 / 10_000 in
    if leg.lots == 0
    then false
    else leb_ℤ (pos collateral +ℤ pnl_of mark entry leg) (pos maintenance)

-- The test divides without rounding where the program rounds down.
pub judge_leg-eq-isolated_underwater :
    (mark collateral entry : ℕ) (leg : Held)
    → mark * leg.lots * 250 < 2 ^ 128
    → judge_leg mark collateral entry (some leg) ≡ isolated_underwater collateral entry mark leg
unfolding isolated_underwater spent
judge_leg-eq-isolated_underwater mark collateral entry leg fits =
    let margin = pos collateral +ℤ pnl_of mark entry leg in ground arith

-- The sweep mirrors the program: where an account reads as collateral, entry and a position, and the
-- collateral and the lots times the entry and 250 marks together stay below 2^53, so that the sweep's
-- floats are exact, it calls for the liquidation exactly if collateral and entry are nonzero and the
-- program's `isolated_underwater` holds, which refuses the call otherwise.
pub check_holder-eq-isolated_underwater :
    (mark asset collateral entry : ℕ) (account : Bytes) (leg : Held)
    → read_u64_le account (collateral_at + asset * 16) ≡ some collateral
    → read_u64_le account (entry_at + asset * 16) ≡ some entry
    → read_position account asset ≡ some (some leg)
    → collateral + (entry + mark * 250) * leg.lots < 2 ^ 53
    → check_holder mark asset (some account)
      ≡ some (
          not (collateral == 0)
          && (not (entry == 0) && isolated_underwater collateral entry mark leg))
unfolding check_holder
check_holder-eq-isolated_underwater mark asset collateral entry account leg hc he hl exact =
    let fits : mark * leg.lots * 250 < 2 ^ 128 = grind arith in
    let same = judge_leg-eq-isolated_underwater mark collateral entry leg fits in
    ground (arith, same)
