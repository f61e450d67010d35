-- ===== src/Ticket/Submit.antt =====
-- `submit` of web/components/TradeForm.tsx, with `fundMarket` of Money and `waitForSessionGrant` of Sessions
-- in it. An owner is there. What the network answers the order itself is a stream of its own.
pub mod Steps
pub mod Gate
use anqa_core.Common.{
  ℕ, suc, ◌+◌, Bool, true, false, not, ◌&&◌, ◌||◌, Option, none, some, List, [], ◌∷◌, if◌then◌else◌,
}
use anqa_core.Common.Async.{Async, Result, ok, err, pure, throw, ◌>>=◌, ◌>>◌}
use anqa_core.Common.Int.{ℤ}
use anqa_core.Common.Ratio.{is_zero}
use anqa_core.Maker.{Rounder}
use anqa_core.Actions.Trading.{OrderArgs}
use anqa_core.Money
use anqa_core.Sessions
use anqa_core.Ticket.{Ticket, Quote, can_rest, Blocker, blocker}
use anqa_core.Ticket.Order.{atoms_of, order_of}

-- What the page knows: what the account needs, and whether the wallet, the mint, the session key and both
-- programs are there.
pub record Setup : Type 0 where
  pub opens : Bool
  pub delegates : Bool
  pub grants : Bool
  pub is_ready : Bool

-- The money flow, the verified grant, and the orders that were placed, the last one first.
pub record Trade : Type 0 where
  pub money : Money.Session
  pub page : Sessions.Page
  pub placed : List OrderArgs

pub data Stop : Type 0 where
  blocked : Blocker → Stop
  not_ready : Stop
  not_funded : Money.Failure → Stop
  still_syncing : Stop
  order_rejected : Stop

-- What a placed order leads to: the position is watched, and stops are armed.
pub record Followup : Type 0 where
  pub watches : Bool
  pub arms : Bool

abbrev pub needs_of : Setup → Money.Need
needs_of u = record {
  opens = u.opens;
  deposits = false;
  delegates = u.delegates;
  grants = u.grants;
  permits = false;
}

-- `rejects` says that `placeOrder` throws, `lands` that the order has landed though it does. What a click
-- finds: the network's answers, the session key, the ticket and the page.
pub record Click : Type 0 where
  pub funds : Money.Net
  pub grants : Sessions.Net
  pub rejects : Bool
  pub lands : Bool
  pub key : ℕ
  pub ticket : Ticket
  pub quote : Quote
  pub setup : Setup

abbrev pub needs_setup : Setup → Bool
needs_setup u = u.opens || (u.delegates || u.grants)

module _ (round : Rounder) (c : Click) where
  abbrev pub fund_market_for : Money.Act ℤ
  fund_market_for = Money.fund_market c.funds true (atoms_of round c.ticket.pay) (needs_of c.setup)

  abbrev pub funded :
      Result Money.Failure ℤ × Money.Session → Trade → Result Stop (Unit {0}) × Trade
  funded (ok _, money) s = (ok tt, record s { money = money })
  funded (err e, money) s = (err (not_funded e), record s { money = money })

  unfoldable pub fund : Async Trade Stop (Unit {0})
  fund s = if needs_setup c.setup then funded (fund_market_for s.money) s else (ok tt, s)

  abbrev pub awaited : Bool × Sessions.Page → Trade → Result Stop (Unit {0}) × Trade
  awaited (visible, page) s =
      (if visible then ok tt else err still_syncing, record s { page = page })

  unfoldable pub await_visible : Async Trade Stop (Unit {0})
  await_visible s =
      if c.setup.grants
      then awaited (Sessions.wait_for_session_grant c.grants c.key 12 s.page) s
      else (ok tt, s)

  unfoldable pub place : ℕ → Async Trade Stop Followup
  unfolding order_of
  place now s =
      let there = record s { placed = order_of round c.ticket c.quote now ∷ s.placed } in
      if c.rejects then (err order_rejected, if c.lands then there else s) else (
        ok (record {
          watches = not (can_rest c.ticket);
          arms =
              c.ticket.stops_open
              && not (is_zero c.ticket.take_profit && is_zero c.ticket.stop_loss);
        }),
        there,
      )

  abbrev pub go_on : ℕ → Async Trade Stop Followup
  go_on now = fund >> (await_visible >> place now)

  unfoldable pub submit : ℕ → Async Trade Stop Followup
  unfolding fund await_visible place blocker
  submit now s = elim (blocker c.ticket c.quote) [
    | some b ↦ (err (blocked b), s)
    | none ↦ if c.setup.is_ready then go_on now s else (err not_ready, s)
  ]
