-- ===== src/Actions/Tests.antt =====
-- The instructions of a concrete wallet.

use anqa_core.Common.{true, false, none, some, List, [], ◌∷◌, map, ◌≡◌}
use anqa_core.Actions.{wallet, Ctx, Instruction, Need, setup_market}
use anqa_core.Actions.Trading.{bid, limit, OrderArgs, TriggerArgs, above}
use anqa_core.Actions.Setup.{names, setup_market-timetable}
use anqa_core.Actions.Scope.{signed_by, beyond_signer}

abbrev ctx : Ctx
ctx = record { market_id = 3; group_id = 1; owner = wallet 7; trader = none; session = none }

-- A new market whose session is still good.
abbrev fresh_need : Need
fresh_need = record {
  opens = true;
  deposits = true;
  delegates = true;
  grants = false;
  permits = true;
}

setup_market-timetable_example :
    names (setup_market ctx 9 5_000_000 (wallet 8) 3_600 fresh_need)
    ≡ "openPortfolio" ∷ "initializeLedger" ∷ "deposit" ∷ "createPortfolioPermission"
      ∷ "delegatePortfolio" ∷ []
setup_market-timetable_example = setup_market-timetable ctx 9 5_000_000 (wallet 8) 3_600 fresh_need

abbrev session_ctx : Ctx
session_ctx = signed_by ctx (some (wallet 8)) (some (wallet 9))

abbrev an_order : OrderArgs
an_order = record {
  side = bid;
  order_type = limit;
  price_in_ticks = 990;
  base_lots = 2;
  client_order_id = 5;
  collateral_atoms = none;
  hidden = some true;
  makers = none;
}

abbrev a_trigger : TriggerArgs
a_trigger = record {
  trigger_id = 1;
  trigger_price = 900;
  direction = above;
  limit_price_in_ticks = 905;
  max_base_lots = 2;
}

abbrev Same : List Instruction → List Instruction → Type 0
Same xs ys = map beyond_signer xs ≡ map beyond_signer ys
