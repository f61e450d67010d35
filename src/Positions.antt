-- ===== src/Positions.antt =====
-- web/components/ManageMarginModal.tsx and web/components/BottomTabs.tsx: what a trader does with an open
-- position. Here is the modal that moves its collateral, with the checks of
-- programs/anqa-core/src/instructions/manage_collateral.rs that it predicts; Closing is the close button.
-- A typed amount is a quotient of dollars, what the account holds is whole atoms, and a price of an asset
-- times a size is atoms a lot times lots, as the lot fraction cancels out; what the modal compares is
-- multiplied by 10,000. What rounding in doubles adds to the cap is a parameter. The program's 128-bit
-- arithmetic on profits is without overflow.
pub mod Removal
pub mod Closing
mod Tests
use anqa_core.Common.{
  ℕ, ◌+◌, ◌-◌, ◌*◌, ◌/◌, ◌^◌, Bool, true, false, not, ◌&&◌, ◌||◌, Option, none, some, ltb, leb,
  ◌==◌, if◌then◌else◌, min,
}
use anqa_core.Common.Int.{ℤ, pos, pos_part, neg_part, ◌+ℤ◌, ◌-ℤ◌, ltb_ℤ, leb_ℤ}
use anqa_core.Common.Ratio.{Ratio, is_zero}
use anqa_core.Keeper.Position.{Held}
use anqa_core.Keeper.Isolated.{pnl_of, saturating_mul}
use anqa_core.Portfolio.{KernelState, equity}

pub data Mode : Type 0 where
  add remove : Mode

-- The row that is managed: `row.mark ?? row.entry ?? 0`, and a profit only where both are known.
pub record Row : Type 0 where
  pub leg : Held
  pub entry : Option ℕ
  pub mark : Option ℕ

abbrev pub mark_of : Row → ℕ
mark_of row = elim row.mark [ some m ↦ m | none ↦ elim row.entry [ some e ↦ e | none ↦ 0 ] ]

-- `pnl` of the modal
abbrev pub row_pnl : Option ℕ → Option ℕ → Held → ℤ
row_pnl (some mark) (some entry) leg = pnl_of mark entry leg
row_pnl _ _ leg = pos 0

-- `maxRemove`, times 10,000; `INITIAL_FRAC` is 0.05.
unfoldable pub max_remove : Row → ℕ → ℕ
unfolding ◌+ℤ◌
max_remove row committed =
    let margin = pos committed +ℤ row_pnl row.mark row.entry row.leg in
    min (10_000 * committed)
      (10_000 * pos_part margin - (10_000 * neg_part margin + mark_of row * row.leg.lots * 500))

-- `free` of the modal's poll.
unfoldable pub free_of : KernelState → ℕ → ℕ → ℕ
unfolding equity ◌-ℤ◌
free_of k committed_total reserved = pos_part (equity k -ℤ pos (committed_total + reserved))

-- `cap`, times 10,000.
unfoldable pub cap_of : Mode → Row → ℕ → ℕ → ℕ
unfolding max_remove
cap_of add row free committed = 10_000 * free
cap_of remove row free committed = max_remove row committed

-- `overCap`, of a typed amount `n`, with its tolerance of a thousandth of an atom; `slip` is what the
-- rounding of doubles adds to the cap, in ten-thousandths of an atom.
unfoldable pub over_cap : ℕ → Mode → Row → ℕ → ℕ → Ratio → Bool
unfolding cap_of
over_cap slip mode row free committed n =
    ltb ((cap_of mode row free committed + 10 + slip) * n.den) (10_000 * 1_000_000 * n.num)

-- Whether the button submits.
unfoldable pub can_submit : ℕ → Bool → Mode → Row → ℕ → ℕ → Ratio → Bool
unfolding over_cap
can_submit slip busy mode row free committed n =
    not (busy || (is_zero n || over_cap slip mode row free committed n))

-- The atoms that are sent for it: `Math.round(usd * 1e6)`.
unfoldable pub amount_of : Ratio → ℕ
amount_of n = (2 * (1_000_000 * n.num) + n.den) / (2 * n.den)

-- What the program answers, where the market is not paused, the signer may trade, the refresh goes
-- through and there is a live mark.
pub data Verdict : Type 0 where
  accepted zero_amount no_open_position insufficient_free removal_exceeds removal_unsafe : Verdict

-- `Portfolio::free_for_commit`, from a certificate; sums stay below 2^128.
unfoldable pub free_for_commit : ℤ → ℕ → ℕ → ℕ
free_for_commit certified_equity committed_total reserved =
    if leb_ℤ certified_equity (pos 0)
    then 0
    else pos_part certified_equity - (committed_total + reserved)

-- `add_handler`
unfoldable pub judge_add : Option Held → ℤ → ℕ → ℕ → ℕ → Verdict
unfolding free_for_commit
judge_add position certified_equity committed_total reserved amount =
    if amount == 0 then zero_amount else elim position [
      | none ↦ no_open_position
      | some leg ↦
          if leb amount (free_for_commit certified_equity committed_total reserved)
          then accepted
          else insufficient_free
    ]

-- Whether what remains would have opened the position: `remaining as i128 + pnl >= initial as i128`.
unfoldable pub clears_initial : ℕ → ℕ → ℕ → Held → Bool
unfolding ◌+ℤ◌
clears_initial mark entry remaining leg =
    leb_ℤ (pos (saturating_mul (saturating_mul mark leg.lots) 500 / 10_000))
      (pos remaining +ℤ pnl_of mark entry leg)

-- `remove_handler`
unfoldable pub judge_remove : ℕ → ℕ → Option Held → ℕ → ℕ → Verdict
unfolding clears_initial
judge_remove mark entry position committed amount =
    if amount == 0
    then zero_amount
    else if ltb committed amount
    then removal_exceeds
    else elim position [
      | none ↦ accepted
      | some leg ↦
          if ltb 0 (committed - amount) && clears_initial mark entry (committed - amount) leg
          then accepted
          else removal_unsafe
    ]
