-- ===== src/Actions/Trading.antt =====
-- The rollup's instructions of web/lib/actions.ts: orders, triggers, collateral, `claimDeposit`,
-- `settleFill` and `realizePnl`. A transaction is the list of its instructions.
use Prim.Native.String.{String}
use anqa_core.Common.{ℕ, Bool, false, Option, none, some, List, [], ◌∷◌, ◌++◌, map}
use anqa_core.Actions.{
  Key, absent, Ctx, market, book, risk_group, asset_slots, oracle_state, tape, portfolio_of,
  ledger_of, Arg, number, flag, word, Instruction, or_owner, or_absent,
}

pub data Side : Type 0 where
  bid : Side
  ask : Side

pub data OrderType : Type 0 where
  limit : OrderType
  post_only : OrderType
  immediate_or_cancel : OrderType
  fill_or_kill : OrderType

pub data Direction : Type 0 where
  above : Direction
  below : Direction

abbrev pub side_word : Side → Arg
side_word bid = word "bid"
side_word ask = word "ask"

abbrev pub type_word : OrderType → Arg
type_word limit = word "limit"
type_word post_only = word "postOnly"
type_word immediate_or_cancel = word "immediateOrCancel"
type_word fill_or_kill = word "fillOrKill"

abbrev pub direction_word : Direction → Arg
direction_word above = word "above"
direction_word below = word "below"

-- `ComputeBudgetProgram.setComputeUnitLimit({ units: 800_000 })`
abbrev pub compute_limit : Instruction
compute_limit = record { name = "setComputeUnitLimit"; args = number 800_000 ∷ []; accounts = [] }

-- The second argument of `placeOrder`; `??` gives the defaults.
pub record OrderArgs : Type 0 where
  pub side : Side
  pub order_type : OrderType
  pub price_in_ticks : ℕ
  pub base_lots : ℕ
  pub client_order_id : ℕ
  pub collateral_atoms : Option ℕ
  pub hidden : Option Bool
  pub makers : Option (List Key)

abbrev pub or_default : {A : Type 0} → Option A → A → A
or_default none d = d
or_default (some a) d = a

abbrev pub remaining : Key → String × Key
remaining k = ("remaining", k)

-- The accounts of `placeOrder` and `closePosition`.
abbrev pub taking_accounts : Ctx → List (String × Key)
taking_accounts c =
    ("trader", or_owner c)
    ∷ ("session", or_absent c.session)
    ∷ ("market", market c)
    ∷ ("book", book c)
    ∷ ("riskGroup", risk_group c)
    ∷ ("assetSlots", asset_slots c)
    ∷ ("oracleState", oracle_state c)
    ∷ ("portfolio", portfolio_of c c.owner)
    ∷ []

-- The accounts of `cancelOrder` and `cancelAll`.
abbrev pub cancelling_accounts : Ctx → List (String × Key)
cancelling_accounts c =
    ("trader", or_owner c)
    ∷ ("session", or_absent c.session)
    ∷ ("market", market c)
    ∷ ("book", book c)
    ∷ ("portfolio", portfolio_of c c.owner)
    ∷ []

-- The accounts of `addCollateral` and `removeCollateral`.
abbrev pub collateral_accounts : Ctx → List (String × Key)
collateral_accounts c =
    ("trader", or_owner c)
    ∷ ("session", or_absent c.session)
    ∷ ("market", market c)
    ∷ ("riskGroup", risk_group c)
    ∷ ("assetSlots", asset_slots c)
    ∷ ("oracleState", oracle_state c)
    ∷ ("portfolio", portfolio_of c c.owner)
    ∷ []

-- The accounts of `placeTrigger` and `cancelTrigger`.
abbrev pub trigger_accounts : Ctx → List (String × Key)
trigger_accounts c =
    ("trader", or_owner c)
    ∷ ("session", or_absent c.session)
    ∷ ("market", market c)
    ∷ ("portfolio", portfolio_of c c.owner)
    ∷ []

unfoldable pub place_order : Ctx → OrderArgs → List Instruction
place_order c a =
    compute_limit
    ∷ record {
      name = "placeOrder";
      args =
          side_word a.side
          ∷ type_word a.order_type
          ∷ number a.price_in_ticks
          ∷ number a.base_lots
          ∷ number a.client_order_id
          ∷ number (or_default a.collateral_atoms 0)
          ∷ flag (or_default a.hidden false)
          ∷ [];
      accounts = taking_accounts c ++ map remaining (or_default a.makers []);
    }
    ∷ []

unfoldable pub cancel_order : Ctx → Side → ℕ → List Instruction
cancel_order c side client_order_id =
    record {
      name = "cancelOrder";
      args = side_word side ∷ number client_order_id ∷ [];
      accounts = cancelling_accounts c;
    }
    ∷ []

unfoldable pub cancel_all : Ctx → List Instruction
cancel_all c = record { name = "cancelAllOrders"; args = []; accounts = cancelling_accounts c } ∷ []

unfoldable pub close_position : Ctx → ℕ → ℕ → List Key → List Instruction
close_position c worst_price_in_ticks max_base_lots makers =
    compute_limit
    ∷ record {
      name = "closePosition";
      args = number worst_price_in_ticks ∷ number max_base_lots ∷ [];
      accounts = taking_accounts c ++ map remaining makers;
    }
    ∷ []

unfoldable pub add_collateral : Ctx → ℕ → List Instruction
add_collateral c amount_atoms =
    record {
      name = "addCollateral";
      args = number amount_atoms ∷ [];
      accounts = collateral_accounts c;
    }
    ∷ []

unfoldable pub remove_collateral : Ctx → ℕ → List Instruction
remove_collateral c amount_atoms =
    record {
      name = "removeCollateral";
      args = number amount_atoms ∷ [];
      accounts = collateral_accounts c;
    }
    ∷ []

pub record TriggerArgs : Type 0 where
  pub trigger_id : ℕ
  pub trigger_price : ℕ
  pub direction : Direction
  pub limit_price_in_ticks : ℕ
  pub max_base_lots : ℕ

unfoldable pub place_trigger : Ctx → TriggerArgs → List Instruction
place_trigger c a =
    record {
      name = "placeTriggerOrder";
      args =
          number a.trigger_id
          ∷ number a.trigger_price
          ∷ direction_word a.direction
          ∷ number a.limit_price_in_ticks
          ∷ number a.max_base_lots
          ∷ [];
      accounts = trigger_accounts c;
    }
    ∷ []

unfoldable pub cancel_trigger : Ctx → ℕ → List Instruction
cancel_trigger c trigger_id =
    record {
      name = "cancelTriggerOrder";
      args = number trigger_id ∷ [];
      accounts = trigger_accounts c;
    }
    ∷ []

unfoldable pub claim_deposit : Ctx → List Instruction
claim_deposit c =
    record {
      name = "claimDeposit";
      args = [];
      accounts =
          ("caller", or_owner c)
          ∷ ("market", market c)
          ∷ ("riskGroup", risk_group c)
          ∷ ("assetSlots", asset_slots c)
          ∷ ("portfolio", portfolio_of c c.owner)
          ∷ ("ledger", ledger_of c c.owner)
          ∷ ("receipt", absent)
          ∷ ("magicContext", absent)
          ∷ ("magicProgram", absent)
          ∷ [];
    }
    ∷ []

unfoldable pub settle_fill : Ctx → Key → Key → List Instruction
settle_fill c taker maker =
    record {
      name = "settleFill";
      args = [];
      accounts =
          ("caller", c.owner)
          ∷ ("market", market c)
          ∷ ("book", book c)
          ∷ ("riskGroup", risk_group c)
          ∷ ("assetSlots", asset_slots c)
          ∷ ("oracleState", oracle_state c)
          ∷ ("takerPortfolio", portfolio_of c taker)
          ∷ ("makerPortfolio", portfolio_of c maker)
          ∷ ("tape", tape c)
          ∷ [];
    }
    ∷ []

unfoldable pub realize_pnl : Ctx → List Instruction
realize_pnl c =
    record {
      name = "realizePnl";
      args = [];
      accounts =
          ("caller", c.owner)
          ∷ ("market", market c)
          ∷ ("riskGroup", risk_group c)
          ∷ ("assetSlots", asset_slots c)
          ∷ ("portfolio", portfolio_of c c.owner)
          ∷ [];
    }
    ∷ []
