-- ===== src/Ticket/Submit/Gate.antt =====
-- What has to hold before an order goes out, and how many do.
use anqa_core.Common.{ℕ, ◌+◌, ◌≤◌, ◌≡◌, true, false}
use anqa_core.Common.Async.{Async, ok}
use anqa_core.Common.Int.{ℤ}
use anqa_core.Maker.{Rounder}
use anqa_core.Money.Funding.{setups}
use anqa_core.Ticket.Submit.{Trade, Click, needs_setup, fund_market_for}
use anqa_core.Ticket.Submit.Steps.{unpaid}

module _ (round : Rounder) (c : Click) (now : ℕ) (s : Trade) (lost : c.lands ≡ false) where
  -- The state between funding and the order.
  record IsFunded (s' : Trade) : Type 0 where
    few : setups s'.money.log ≤ setups s.money.log + 1
    same : s'.placed ≡ s.placed
    paid_for :
        needs_setup c.setup ≡ true → (v : ℤ) × (fund_market_for round c s.money ≡ (ok v, s'.money))
    unpaid : needs_setup c.setup ≡ false → s'.money ≡ s.money
