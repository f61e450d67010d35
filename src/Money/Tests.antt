-- ===== src/Money/Tests.antt =====
-- The money model against concrete networks.
use anqa_core.Common.{
  ◌≡◌, ◌⊎◌, refl, true, false, ◌&&◌, none, some, [], ◌∷◌, ltb, ◌==◌, if◌then◌else◌, arith,
}
use anqa_core.Common.Async.{ok}
use anqa_core.Money.{
  Net, Need, permission, undelegate, delegate, request_withdraw, authorize_withdraw,
  settle_withdraw, Session, Account, program, delegation_program, private, uncredited_seen, poll,
  ensure_portfolio_private, migrate_to_private, fund_market, await_receipt, defund_market,
}
use anqa_core.Money.Hiding.{
  IsEnsured, ensure_portfolio_private-IsEnsured, IsMigrated, migrate_to_private-IsMigrated,
}
use anqa_core.Money.Funding.{setups, IsCall, fund_market-IsCall}
use anqa_core.Money.Pending.{PendingAlways, Refused, IsRich, fund_market-pending}
use anqa_core.Money.Exit.{IsDefund, defund_market-IsDefund}

abbrev pub at_first : Session
at_first = record { awaits = 0; log = []; hidden = false }

-- A portfolio without kernel bytes.
abbrev empty : Account
empty = record { claimed_high_water = 0; inner = [] }

-- Every read fails and every transaction is taken.
abbrev pub silent : Net
silent = record {
  portfolio = λ _. none;
  ledger = λ _. none;
  is_private = λ _. false;
  holder = λ _. none;
  rejects = λ _. false;
  unreadable = λ _. false;
}

-- The permission is seen from the fifth await on.
abbrev hiding : Net
hiding = record silent { is_private = λ n. ltb 4 n }

hiding-run :
    ensure_portfolio_private hiding at_first
    ≡ (ok private, record { awaits = 6; log = permission ∷ []; hidden = true })
unfolding ensure_portfolio_private poll
hiding-run = refl

ensure_portfolio_private-IsEnsured_example :
    IsEnsured hiding at_first (ensure_portfolio_private hiding at_first)
ensure_portfolio_private-IsEnsured_example = ensure_portfolio_private-IsEnsured hiding at_first

-- A portfolio that is delegated, comes home, is hidden there and goes back.
abbrev moving : Net
moving = record hiding {
  is_private = λ n. ltb 5 n;
  holder = λ n. if ltb 2 n && ltb n 6 then some program else some delegation_program;
}

moving-run : migrate_to_private moving at_first ≡ (
  ok private,
  record { awaits = 10; log = delegate ∷ permission ∷ undelegate ∷ []; hidden = true },
)
unfolding migrate_to_private poll
moving-run = refl

migrate_to_private-IsMigrated_example :
    IsMigrated moving at_first (migrate_to_private moving at_first)
migrate_to_private-IsMigrated_example = migrate_to_private-IsMigrated moving at_first

abbrev grant_only : Need
grant_only = record {
  opens = false;
  deposits = false;
  delegates = false;
  grants = true;
  permits = false;
}

-- Nothing is ever credited: the one setup transaction deposits 5 dollars, and the call fails.
fund_market-IsCall_example :
    IsCall silent 5_000_000 at_first (fund_market silent true 5_000_000 grant_only at_first)
fund_market-IsCall_example = fund_market-IsCall silent true 5_000_000 grant_only at_first

-- The ledger shows 8 dollars, and the portfolio has been credited with none of them.
abbrev stuck : Net
stuck = record silent { ledger = λ _. some 8_000_000; portfolio = λ _. some empty }

stuck-PendingAlways : PendingAlways stuck
unfolding uncredited_seen
stuck-PendingAlways t = (8_000_000, refl, omega arith)

fund_market-pending_example :
    let end = fund_market stuck true 5_000_000 grant_only at_first in
    (setups end.1.log ≡ setups []) × (Refused end ⊎ IsRich stuck 5_000_000 grant_only at_first end)
fund_market-pending_example =
    fund_market-pending stuck stuck-PendingAlways true 5_000_000 grant_only at_first refl

-- The receipt comes home in the fifth await.
abbrev paying : Net
paying = record silent { holder = λ n. if ltb n 4 then some delegation_program else some program }

paying-run : defund_market paying 2_000_000 at_first ≡ (
  ok tt,
  record {
    awaits = 6;
    log = settle_withdraw ∷ authorize_withdraw ∷ request_withdraw 2_000_000 ∷ [];
    hidden = false;
  },
)
unfolding defund_market await_receipt
paying-run = refl

defund_market-IsDefund_example :
    IsDefund paying 2_000_000 at_first (defund_market paying 2_000_000 at_first)
defund_market-IsDefund_example = defund_market-IsDefund paying 2_000_000 at_first

-- The same, where the authorisation is rejected.
abbrev refusing : Net
refusing = record paying { rejects = λ n. n == 1 }

abbrev closing : Net
closing = record silent { portfolio = λ _. some empty }
