-- ===== src/Actions.antt =====
-- web/lib/actions.ts, and `anqaAccounts` of web/lib/anqa.ts: the instructions that the terminal
-- builds. An account's address is kept as what it is derived from; `findProgramAddressSync` is taken
-- to give different addresses for different seeds. Sending is left to margin.ts's model.
pub mod Setup
pub mod Trading
pub mod Custody
pub mod Scope
mod Tests
use Prim.Native.String.{String}
use text.Mathlib.Text.{◌==◌ as str_eq}
use anqa_core.Common.{ℕ, Bool, true, false, Option, none, some, List, [], ◌∷◌, ◌++◌, if◌then◌else◌}

pub data Key : Type 0 where
  wallet : ℕ → Key
  known : String → Key
  pda : String → ℕ → Key
  owned_pda : String → Key → ℕ → Key
  of_account : String → Key → Key
  token_account : ℕ → Key → Key
  absent : Key

-- `type Ctx`, with the two ids that `anqaAccounts` is called with.
pub record Ctx : Type 0 where
  pub market_id : ℕ
  pub group_id : ℕ
  pub owner : Key
  pub trader : Option Key
  pub session : Option Key

-- `anqaAccounts`
abbrev pub group_market : Ctx → Key
group_market c = pda "anqa_market" c.group_id

abbrev pub market : Ctx → Key
market c = pda "anqa_market" c.market_id

abbrev pub book : Ctx → Key
book c = pda "anqa_book" c.market_id

abbrev pub risk_group : Ctx → Key
risk_group c = pda "anqa_risk" c.group_id

abbrev pub asset_slots : Ctx → Key
asset_slots c = pda "anqa_assets" c.group_id

abbrev pub oracle_state : Ctx → Key
oracle_state c = pda "anqa_oracle" c.market_id

abbrev pub vault : Ctx → Key
vault c = pda "anqa_vault" c.group_id

abbrev pub tape : Ctx → Key
tape c = pda "anqa_tape" c.market_id

abbrev pub portfolio_of : Ctx → Key → Key
portfolio_of c o = owned_pda "anqa_portfolio" o c.group_id

abbrev pub session_of : Ctx → Key → Key
session_of c o = of_account "anqa_session" o

abbrev pub ledger_of : Ctx → Key → Key
ledger_of c o = owned_pda "anqa_ledger" o c.group_id

abbrev pub deposit_receipt_of : Ctx → Key → Key
deposit_receipt_of c o = owned_pda "anqa_dreceipt" o c.group_id

abbrev pub withdraw_receipt_of : Ctx → Key → Key
withdraw_receipt_of c o = owned_pda "anqa_wreceipt" o c.group_id

abbrev pub permission_of : Key → Key
permission_of k = of_account "permission:" k

abbrev pub buffer_of : Key → Key
buffer_of k = of_account "buffer" k

abbrev pub delegation_record_of : Key → Key
delegation_record_of k = of_account "delegation" k

abbrev pub delegation_metadata_of : Key → Key
delegation_metadata_of k = of_account "delegation-metadata" k

abbrev pub system_program : Key
system_program = known "SystemProgram"

abbrev pub venue_keeper : Key
venue_keeper = known "VENUE_KEEPER"

pub data Arg : Type 0 where
  number : ℕ → Arg
  flag : Bool → Arg
  word : String → Arg
  key : Key → Arg
  member : Key → ℕ → Arg

pub record Instruction : Type 0 where
  pub name : String
  pub args : List Arg
  pub accounts : List (String × Key)

abbrev pub or_owner : Ctx → Key
or_owner c = elim c.trader [ none ↦ c.owner | some t ↦ t ]

abbrev pub or_absent : Option Key → Key
or_absent none = absent
or_absent (some s) = s

unfoldable pub open_portfolio : Ctx → Instruction
open_portfolio c = record {
  name = "openPortfolio";
  args = [];
  accounts =
      ("trader", c.owner)
      ∷ ("market", group_market c)
      ∷ ("portfolio", portfolio_of c c.owner)
      ∷ ("systemProgram", system_program)
      ∷ [];
}

unfoldable pub initialize_ledger : Ctx → Instruction
initialize_ledger c = record {
  name = "initializeLedger";
  args = [];
  accounts =
      ("trader", c.owner)
      ∷ ("market", market c)
      ∷ ("ledger", ledger_of c c.owner)
      ∷ ("systemProgram", system_program)
      ∷ [];
}

-- `openAccount`: two transactions, one after the other.
unfoldable pub open_account : Ctx → List Instruction
unfolding open_portfolio initialize_ledger
open_account c = open_portfolio c ∷ initialize_ledger c ∷ []

-- `ALL_FLAGS` is 31.
unfoldable pub permission_portfolio : Ctx → Instruction
permission_portfolio c = record {
  name = "createPortfolioPermission";
  args = number c.group_id ∷ member c.owner 31 ∷ member venue_keeper 31 ∷ [];
  accounts =
      ("trader", c.owner)
      ∷ ("market", group_market c)
      ∷ ("portfolio", portfolio_of c c.owner)
      ∷ ("permission", permission_of (portfolio_of c c.owner))
      ∷ ("permissionProgram", known "ACL")
      ∷ ("systemProgram", system_program)
      ∷ [];
}

unfoldable pub deposit : Ctx → ℕ → ℕ → Instruction
deposit c mint amount =
    let receipt = deposit_receipt_of c c.owner in
    record {
      name = "deposit";
      args = number amount ∷ flag false ∷ [];
      accounts =
          ("trader", c.owner)
          ∷ ("market", market c)
          ∷ ("ledger", ledger_of c c.owner)
          ∷ ("traderTokenAccount", token_account mint c.owner)
          ∷ ("vault", vault c)
          ∷ ("receipt", receipt)
          ∷ ("buffer", buffer_of receipt)
          ∷ ("delegationRecord", delegation_record_of receipt)
          ∷ ("delegationMetadata", delegation_metadata_of receipt)
          ∷ ("ownerProgram", known "PROGRAM_ID")
          ∷ ("delegationProgram", known "DLP")
          ∷ ("tokenProgram", known "TOKEN_PROGRAM_ID")
          ∷ ("systemProgram", system_program)
          ∷ [];
    }

unfoldable pub delegate_portfolio : Ctx → Instruction
delegate_portfolio c =
    let portfolio = portfolio_of c c.owner in
    record {
      name = "delegatePortfolio";
      args = number c.group_id ∷ [];
      accounts =
          ("trader", c.owner)
          ∷ ("portfolio", portfolio)
          ∷ ("bufferPortfolio", buffer_of portfolio)
          ∷ ("delegationRecordPortfolio", delegation_record_of portfolio)
          ∷ ("delegationMetadataPortfolio", delegation_metadata_of portfolio)
          ∷ ("ownerProgram", known "PROGRAM_ID")
          ∷ ("delegationProgram", known "DLP")
          ∷ ("systemProgram", system_program)
          ∷ [];
    }

unfoldable pub grant_session : Ctx → Key → ℕ → Instruction
grant_session c session_key duration = record {
  name = "grantSession";
  args = key session_key ∷ number duration ∷ [];
  accounts =
      ("owner", c.owner)
      ∷ ("session", session_of c c.owner)
      ∷ ("systemProgram", system_program)
      ∷ [];
}

-- `SystemProgram.transfer` of the fee float.
unfoldable pub float_fees : Ctx → Key → Instruction
float_fees c session_key = record {
  name = "transfer";
  args = number 30_000_000 ∷ [];
  accounts = ("fromPubkey", c.owner) ∷ ("toPubkey", session_key) ∷ [];
}

pub record Need : Type 0 where
  pub opens : Bool
  pub deposits : Bool
  pub delegates : Bool
  pub grants : Bool
  pub permits : Bool

-- The instructions of `setupMarket`, in the order of the transaction; `[]` is no transaction.
unfoldable pub setup_market : Ctx → ℕ → ℕ → Key → ℕ → Need → List Instruction
unfolding open_account permission_portfolio deposit delegate_portfolio grant_session float_fees
setup_market c mint deposit_atoms session_key duration need =
    (if need.opens then open_account c else [])
    ++ ((if need.deposits then deposit c mint deposit_atoms ∷ [] else [])
        ++ ((if need.permits then permission_portfolio c ∷ [] else [])
            ++ ((if need.delegates then delegate_portfolio c ∷ [] else [])
                ++ (if need.grants
                    then grant_session c session_key duration ∷ float_fees c session_key ∷ []
                    else []))))
