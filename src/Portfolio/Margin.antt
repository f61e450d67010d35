-- ===== src/Portfolio/Margin.antt =====
-- Equity and free margin, as the terminal shows them and as the program computes them.
use anqa_core.Common.{ℕ, ◌+◌, ◌-◌, ◌≡◌, ◌⊎◌, true, false, if◌then◌else◌, arith}
use anqa_core.Common.Int.{ℤ, pos, pos_part, neg_part, ◌+ℤ◌, ◌-ℤ◌, ◌≤ℤ◌, leb_ℤ}
use anqa_core.Portfolio.{KernelState, equity, equity_is_estimated, free_margin}

-- Free margin is exact and never negative: either it is 0 and what is committed, by positions and
-- resting orders, covers the equity; or it is positive, and adds up with that to the equity.
pub free_margin_bounds :
    (k : KernelState) (reserved : ℕ)
    → ((free_margin k reserved ≡ pos 0) × (equity k ≤ℤ pos (k.initial_requirement + reserved)))
      ⊎ ((pos 1 ≤ℤ free_margin k reserved)
          × (free_margin k reserved +ℤ pos (k.initial_requirement + reserved) ≡ equity k))
unfolding free_margin ◌+ℤ◌ ◌-ℤ◌
free_margin_bounds k reserved = ground arith

-- `Portfolio::free_margin` of the program, from a certificate; sums stay below 2^128.
unfoldable pub program_free_margin : ℤ → ℕ → ℕ → ℕ
program_free_margin certified_equity position_margin reserved =
    if leb_ℤ certified_equity (pos 0)
    then 0
    else pos_part certified_equity - (position_margin + reserved)

-- Where the kernel has certified a positive equity, the terminal's free margin is the program's,
-- and it is not called an estimate.
pub free_margin-eq-program :
    (k : KernelState) (reserved : ℕ)
    → k.cert_is_valid ≡ true
    → pos 1 ≤ℤ k.certified_equity
    → (free_margin k reserved
        ≡ pos (program_free_margin k.certified_equity k.initial_requirement reserved))
      × (equity_is_estimated k ≡ false)
unfolding free_margin program_free_margin equity_is_estimated ◌-ℤ◌ ◌+ℤ◌
free_margin-eq-program k reserved valid positive = ground arith

-- Where there is no positive certificate, the terminal shows what capital and PnL leave, and says
-- that it is an estimate: capital, less the loss or with the gain, is what is free and committed.
pub free_margin_estimated :
    (k : KernelState) (reserved : ℕ)
    → (k.cert_is_valid ≡ false) ⊎ (k.certified_equity ≤ℤ pos 0)
    → (equity_is_estimated k ≡ true)
      × (free_margin k reserved
          ≡ pos (k.capital + pos_part k.pnl - neg_part k.pnl - (k.initial_requirement + reserved)))
unfolding free_margin equity_is_estimated ◌-ℤ◌ ◌+ℤ◌
free_margin_estimated k reserved absent = ground arith
