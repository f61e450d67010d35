-- ===== src/Ticket/Submit/Steps.antt =====
-- How funding, the wait for the grant and the order end.
use mathlib.Core.Path.{subst}
use anqa_core.Common.{
  ℕ, ◌+◌, ◌^◌, ◌<◌, ◌≤◌, ◌≡◌, inl, inr, refl, ap, sym, ◌∙◌, true, false, not, ◌&&◌, none, some, ◌∷◌,
  arith, Bool-cases,
}
use anqa_core.Common.Async.{Result, ok, err}
use anqa_core.Common.Int.{ℤ}
use anqa_core.Common.Ratio.{IsRatio, ◌*ᵣ◌, is_zero, floor_ratio}
use anqa_core.Maker.{Rounder}
use anqa_core.Money
use anqa_core.Money.Funding.{setups, fund_market-IsCall}
use anqa_core.Sessions
use anqa_core.Sessions.Grants.{wait_for_session_grant-Ends}
use anqa_core.Ticket.{can_rest, per_lot, Blocker, blocker}
use anqa_core.Ticket.Order.{atoms_of, order_of}
use anqa_core.Ticket.Order.Sound.{IsSound, IsFloor}
use anqa_core.Ticket.Submit.{
  Trade, Stop, blocked, not_ready, not_funded, still_syncing, order_rejected, Followup, needs_of,
  Click, needs_setup, fund_market_for, funded, fund, awaited, await_visible, place,
}

-- The last read of the session was a good grant of the ticket's key, and the page keeps it.
pub record IsVisible (c : Click) (page : Sessions.Page) : Type 0 where
  pub grant : Sessions.Grant
  pub last_read : ℕ
  pub at_last : last_read + 1 ≡ page.awaits
  pub is_good : Sessions.good c.grants c.key last_read ≡ some grant
  pub kept : page.verified ≡ some grant

-- How each step ends.
pub data Funds (round : Rounder) (c : Click) (s : Trade)
    : Result Stop (Unit {0}) × Trade → Type 0 where
  skipped : needs_setup c.setup ≡ false → Funds round c s (ok tt, s)
  paid :
      (v : ℤ) (money : Money.Session)
      → needs_setup c.setup ≡ true
      → fund_market_for round c s.money ≡ (ok v, money)
      → Funds round c s (ok tt, record s { money = money })
  unpaid :
      (e : Money.Failure) (money : Money.Session)
      → fund_market_for round c s.money ≡ (err e, money)
      → Funds round c s (err (not_funded e), record s { money = money })

pub data Awaits (c : Click) (s : Trade) : Result Stop (Unit {0}) × Trade → Type 0 where
  unneeded : c.setup.grants ≡ false → Awaits c s (ok tt, s)
  seen : (page : Sessions.Page) → IsVisible c page → Awaits c s (ok tt, record s { page = page })
  unseen : (page : Sessions.Page) → Awaits c s (err still_syncing, record s { page = page })

-- An order went out, from `s`.
pub record IsPlaced (round : Rounder) (c : Click) (now : ℕ) (s end : Trade) : Type 0 where
  pub one_order : end.placed ≡ order_of round c.ticket c.quote now ∷ s.placed
  pub unblocked : blocker c.ticket c.quote ≡ none
  pub sound :
      IsRatio c.ticket.pay
      → IsRatio c.ticket.lev
      → IsFloor c.quote.floors
      → floor_ratio (c.ticket.pay *ᵣ c.ticket.lev) (per_lot c.ticket c.quote) < 2 ^ 50
      → IsSound c.ticket c.quote (order_of round c.ticket c.quote now)
  pub ready : c.setup.is_ready ≡ true
  pub paid_for :
      needs_setup c.setup ≡ true → (v : ℤ) × (fund_market_for round c s.money ≡ (ok v, end.money))
  pub unpaid : needs_setup c.setup ≡ false → end.money ≡ s.money
  pub visible : c.setup.grants ≡ true → IsVisible c end.page

pub data Submits (round : Rounder) (c : Click) (now : ℕ) (s : Trade)
    : Result Stop Followup × Trade → Type 0 where
  stopped :
      (b : Blocker) → blocker c.ticket c.quote ≡ some b → Submits round c now s (err (blocked b), s)
  unready : c.setup.is_ready ≡ false → Submits round c now s (err not_ready, s)
  halted :
      (e : Stop) (end : Trade)
      → end.placed ≡ s.placed
      → setups end.money.log ≤ setups s.money.log + 1
      → Submits round c now s (err e, end)
  placed :
      (f : Followup) (end : Trade)
      → f.watches ≡ not (can_rest c.ticket)
      → IsPlaced round c now s end
      → setups end.money.log ≤ setups s.money.log + 1
      → Submits round c now s (ok f, end)

module _ (round : Rounder) (c : Click) where
  pub fund-Funds : (s : Trade) → Funds round c s (fund round c s)
  unfolding fund
  fund-Funds s = elim (Bool-cases (needs_setup c.setup)) [
    | inr e ↦
        let at : fund round c s ≡ (ok tt, s) = rw (e) refl in
        subst (Funds round c s) (sym at) (skipped e)
    | inl e ↦
        let at : fund round c s ≡ funded round c (fund_market_for round c s.money) s =
          rw (e) refl in
        subst (Funds round c s) (sym at) (by_result (fund_market_for round c s.money) refl e)
  ]
    where
      by_result :
          (z : Result Money.Failure ℤ × Money.Session)
          → fund_market_for round c s.money ≡ z
          → needs_setup c.setup ≡ true
          → Funds round c s (funded round c z s)
      by_result (ok v, money) h e = paid v money e h
      by_result (err x, money) h e = unpaid x money h

  pub await_visible-Awaits : (s : Trade) → Awaits c s (await_visible round c s)
  unfolding await_visible
  await_visible-Awaits s = elim (Bool-cases c.setup.grants) [
    | inr e ↦
        let at : await_visible round c s ≡ (ok tt, s) = rw (e) refl in
        subst (Awaits c s) (sym at) (unneeded e)
    | inl e ↦
        let wait = Sessions.wait_for_session_grant c.grants c.key 12 s.page in
        let at : await_visible round c s ≡ awaited round c wait s = rw (e) refl in
        elim (wait_for_session_grant-Ends c.grants c.key 12 s.page) [
          | inl f ↦
              let same = at ∙ ap (λ z. awaited round c z s) f.result in
              subst (Awaits c s) (sym same) (
                seen _ (record {
                  grant = f.grant;
                  last_read = s.page.awaits + f.round;
                  at_last = omega arith;
                  is_good = f.is_good;
                  kept = refl;
                }))
          | inr f ↦
              let same = at ∙ ap (λ z. awaited round c z s) f.result in
              subst (Awaits c s) (sym same) (unseen _)
        ]
  ]

  pub fund-setups : (s : Trade) → setups (fund round c s).1.money.log ≤ setups s.money.log + 1
  unfolding fund
  fund-setups s =
      let call =
        fund_market-IsCall c.funds true (atoms_of round c.ticket.pay) (needs_of c.setup) s.money in
      elim (Bool-cases (needs_setup c.setup)) [
        | inr e ↦ ground (arith, e)
        | inl e ↦
            let at : fund round c s ≡ funded round c (fund_market_for round c s.money) s =
              rw (e) refl in
            subst (λ z. setups z.1.money.log ≤ setups s.money.log + 1) (sym at)
              (by_result (fund_market_for round c s.money) call.one_setup)
      ]
    where
      by_result :
          (z : Result Money.Failure ℤ × Money.Session)
          → setups z.1.log ≤ setups s.money.log + 1
          → setups (funded round c z s).1.money.log ≤ setups s.money.log + 1
      by_result (ok v, money) h = h
      by_result (err x, money) h = h

  pub place-Submits :
      (now : ℕ) (s s' : Trade)
      → c.lands ≡ false
      → setups s'.money.log ≤ setups s.money.log + 1
      → s'.placed ≡ s.placed
      → IsPlaced round c now s
          (record s' { placed = order_of round c.ticket c.quote now ∷ s.placed })
      → Submits round c now s (place round c now s')
  unfolding place
  place-Submits now s s' lost few same out = elim (Bool-cases c.rejects) [
    | inl e ↦
        let at : place round c now s' ≡ (err order_rejected, s') = rw (e, lost) refl in
        subst (Submits round c now s) (sym at) (halted order_rejected s' same few)
    | inr e ↦
        let end = record s' { placed = order_of round c.ticket c.quote now ∷ s.placed } in
        let follow : Followup = record {
          watches = not (can_rest c.ticket);
          arms =
              c.ticket.stops_open
              && not (is_zero c.ticket.take_profit && is_zero c.ticket.stop_loss);
        } in
        let order = order_of round c.ticket c.quote now in
        let goes : place round c now s' ≡ (ok follow, record s' { placed = order ∷ s'.placed }) =
          rw (e) refl in
        let at = goes ∙ ap (λ xs. (ok follow, record s' { placed = order ∷ xs })) same in
        subst (Submits round c now s) (sym at) (placed follow end refl out few)
  ]
