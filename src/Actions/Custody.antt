-- ===== src/Actions/Custody.antt =====
-- The custody instructions of web/lib/actions.ts: the three legs of a withdrawal, the delegation
-- of the portfolio with a session, its return, and `setPortfolioPrivate`.
use anqa_core.Common.{ℕ, false, List, [], ◌∷◌}
use anqa_core.Actions.{
  Key, known, token_account, Ctx, group_market, market, risk_group, asset_slots, vault,
  portfolio_of, ledger_of, withdraw_receipt_of, permission_of, buffer_of, delegation_record_of,
  delegation_metadata_of, system_program, venue_keeper, number, flag, member, Instruction,
  delegate_portfolio, grant_session, float_fees,
}

unfoldable pub delegate_and_grant : Ctx → Key → ℕ → List Instruction
unfolding delegate_portfolio grant_session float_fees
delegate_and_grant c session_key duration =
    delegate_portfolio c ∷ grant_session c session_key duration ∷ float_fees c session_key ∷ []

unfoldable pub grant_session_only : Ctx → Key → ℕ → List Instruction
unfolding grant_session float_fees
grant_session_only c session_key duration =
    grant_session c session_key duration ∷ float_fees c session_key ∷ []

unfoldable pub request_withdraw : Ctx → ℕ → ℕ → Instruction
request_withdraw c mint amount =
    let receipt = withdraw_receipt_of c c.owner in
    record {
      name = "requestWithdraw";
      args = number amount ∷ flag false ∷ [];
      accounts =
          ("trader", c.owner)
          ∷ ("market", group_market c)
          ∷ ("ledger", ledger_of c c.owner)
          ∷ ("payoutTo", token_account mint c.owner)
          ∷ ("receipt", receipt)
          ∷ ("buffer", buffer_of receipt)
          ∷ ("delegationRecord", delegation_record_of receipt)
          ∷ ("delegationMetadata", delegation_metadata_of receipt)
          ∷ ("ownerProgram", known "PROGRAM_ID")
          ∷ ("delegationProgram", known "DLP")
          ∷ ("systemProgram", system_program)
          ∷ [];
    }

unfoldable pub authorize_withdraw : Ctx → Instruction
authorize_withdraw c = record {
  name = "authorizeWithdraw";
  args = [];
  accounts =
      ("payer", c.owner)
      ∷ ("market", group_market c)
      ∷ ("riskGroup", risk_group c)
      ∷ ("assetSlots", asset_slots c)
      ∷ ("portfolio", portfolio_of c c.owner)
      ∷ ("receipt", withdraw_receipt_of c c.owner)
      ∷ ("magicProgram", known "MAGIC_PROGRAM")
      ∷ ("magicContext", known "MAGIC_CONTEXT")
      ∷ [];
}

unfoldable pub settle_withdraw : Ctx → ℕ → Instruction
settle_withdraw c mint = record {
  name = "settleWithdraw";
  args = [];
  accounts =
      ("market", group_market c)
      ∷ ("ledger", ledger_of c c.owner)
      ∷ ("receipt", withdraw_receipt_of c c.owner)
      ∷ ("owner", c.owner)
      ∷ ("payoutTo", token_account mint c.owner)
      ∷ ("vault", vault c)
      ∷ ("tokenProgram", known "TOKEN_PROGRAM_ID")
      ∷ ("escrowAuth", c.owner)
      ∷ ("escrow", c.owner)
      ∷ [];
}

unfoldable pub undelegate_portfolio : Ctx → Instruction
undelegate_portfolio c = record {
  name = "undelegatePortfolio";
  args = [];
  accounts =
      ("trader", c.owner)
      ∷ ("portfolio", portfolio_of c c.owner)
      ∷ ("magicProgram", known "MAGIC_PROGRAM")
      ∷ ("magicContext", known "MAGIC_CONTEXT")
      ∷ [];
}

unfoldable pub set_portfolio_private : Ctx → Instruction
set_portfolio_private c =
    let portfolio = portfolio_of c c.owner in
    record {
      name = "setPortfolioPrivate";
      args = member c.owner 31 ∷ member venue_keeper 31 ∷ [];
      accounts =
          ("owner", c.owner)
          ∷ ("portfolio", portfolio)
          ∷ ("market", market c)
          ∷ ("permission", permission_of portfolio)
          ∷ ("vault", known "MAGIC_FEE_VAULT")
          ∷ ("magicProgram", known "MAGIC_PROGRAM")
          ∷ ("permissionProgram", known "ACL")
          ∷ [];
    }
