-- ===== src/Maker/Cycle.antt =====
-- `quoteMarket` of app/maker-daemon.ts. A side of the book is the daemon's own model of it, by level, and
-- what rests there for it, by client-order id: the book takes a second order with an id that is in
-- use, so what rests under one id is a list. Nobody else acts during a cycle; log lines and counters
-- are left out.
pub mod Steps
pub mod Sound
pub mod Exact
pub mod Wanted
pub mod Laid
pub mod Refines
pub mod Backed
use anqa_core.Common.{
  ℕ, zero, suc, ◌+◌, ◌-◌, ◌*◌, ◌/◌, ◌%◌, ◌^◌, ◌≤◌, ◌<◌, Bool, true, false, not, ◌&&◌, ◌||◌, Option,
  none, some, List, [], ◌∷◌, ◌++◌, length, drop, replicate, ltb, leb, ◌==◌, if◌then◌else◌, max,
}
use anqa_core.Common.Int.{ℤ, pos, pos_part, neg_part, ◌-ℤ◌}
use anqa_core.Common.Dict.{lookup, assign, erase}
use anqa_core.Portfolio.{Bytes}
use anqa_core.Maker.{Rung, Rungs, Quoting, Rounder, mid_of, desired_bids, desired_asks}
use anqa_core.Maker.Position.{net_position}
use anqa_core.Maker.Send.{Wire, Fault, Report, sent, gave_up, threw, Outcome, send}

-- One side of `MktState`, with what rests in the book.
pub record Desk : Type 0 where
  pub model : Rungs
  pub book : ℕ → List Rung

-- A desk, and the number of attempts made so far.
abbrev pub Place : Type 0
Place = Desk × ℕ

abbrev pub at : (ℕ → List Rung) → ℕ → List Rung → ℕ → List Rung
at book id rungs c = if c == id then rungs else book c

-- What the program does: an order is added, the first order with the id is changed or removed.
abbrev pub added : ℕ → Rung → List Rung → List Rung
added landed r rs = rs ++ replicate landed r

abbrev pub changed : ℕ → Rung → List Rung → List Rung
changed zero r rs = rs
changed (suc n) r [] = []
changed (suc n) r (_ ∷ rs) = r ∷ rs

abbrev pub same_ℤ : ℤ → ℤ → Bool
same_ℤ a b = (pos_part a == pos_part b) && (neg_part a == neg_part b)

abbrev pub same_rung : Rung → Rung → Bool
same_rung have want = same_ℤ have.price want.price && (have.lots == want.lots)

module _ (w : Wire) where
  -- `recert()`: its failure is swallowed, so only its attempts count.
  abbrev pub recert : Bool → ℕ → ℕ
  recert true n = (send w n).next
  recert false n = n

  -- What the model becomes after a modification: a failure drops the level.
  abbrev pub modified : Report → ℕ → Rung → Desk → ℕ → Place
  modified sent lvl want d n = (record d { model = assign lvl want d.model }, n)
  modified gave_up lvl want d n = (d, n)
  modified (threw f) lvl want d n = (record d { model = erase lvl d.model }, recert f.stale n)

  unfoldable pub modify_rung : ℕ → Rung → Place → Place
  modify_rung lvl want (d, n) =
      let o = send w n in
      let landed = record d {
        book = at d.book want.coid (changed o.landed want (d.book want.coid));
      } in
      modified o.report lvl want landed o.next

  -- One round of the first loop of `applySide`: the desk, and what is put on `toPlace`.
  unfoldable pub want_one : ℕ → Rung → Place → Place × Rungs
  unfolding modify_rung
  want_one lvl want (d, n) = elim (lookup lvl d.model) [
    | none ↦ ((d, n), (lvl, want) ∷ [])
    | some have ↦ (if same_rung have want then (d, n) else modify_rung lvl want (d, n), [])
  ]

  unfoldable pub want_all : Rungs → Place → Place × Rungs
  unfolding want_one
  want_all [] p = (p, [])
  want_all ((lvl, want) ∷ wants) p =
      let (p', q) = want_one lvl want p in let (p'', qs) = want_all wants p' in (p'', q ++ qs)

  unfoldable pub cancel_rung : ℕ → Rung → Place → Place
  cancel_rung lvl have (d, n) =
      let o = send w n in
      (
        record {
          model = erase lvl d.model;
          book = at d.book have.coid (drop o.landed (d.book have.coid));
        },
        o.next,
      )

  -- The second loop of `applySide`, over the entries that the model has when it begins.
  unfoldable pub drop_all : Rungs → Rungs → Place → Place
  unfolding cancel_rung
  drop_all wants [] p = p
  drop_all wants ((lvl, have) ∷ haves) p = elim (lookup lvl wants) [
    | none ↦ drop_all wants haves (cancel_rung lvl have p)
    | some _ ↦ drop_all wants haves p
  ]

  unfoldable pub apply_side : Rungs → Place → Place × Rungs
  unfolding want_all drop_all
  apply_side wants p = let (p', q) = want_all wants p in (drop_all wants p'.0.model p', q)

  -- The level is read off the id, `q.clientOrderId.toNumber() & 0xffff`.
  abbrev pub placed : Report → Rung → Desk → ℕ → Place
  placed sent r d n = (record d { model = assign (r.coid % 2 ^ 16) r d.model }, n)
  placed gave_up r d n = (d, n)
  placed (threw f) r d n = (d, recert (f.stale || f.code_6010) n)

  unfoldable pub place_one : Rung → Place → Place
  place_one r (d, n) =
      let o = send w n in
      let landed = record d { book = at d.book r.coid (added o.landed r (d.book r.coid)) } in
      placed o.report r landed o.next

  unfoldable pub place_all : Rungs → Place → Place
  unfolding place_one
  place_all [] p = p
  place_all ((_, r) ∷ rs) p = place_all rs (place_one r p)

-- `MktState`, without what does not change.
pub record Market : Type 0 where
  pub bids : Desk
  pub asks : Desk
  pub last_mid : ℤ
  pub last_quote : ℕ
  pub last_reconcile : ℕ
  pub attempts : ℕ

-- What a cycle is shown: the oracle's price and the portfolio, where they could be read, and the
-- time, which one reading of the clock stands for.
pub record Seen : Type 0 where
  pub mark : Option ℕ
  pub portfolio : Option Bytes
  pub now : ℕ

abbrev pub position_seen : Option Bytes → ℕ → Option ℤ
position_seen none asset = some (pos 0)
position_seen (some account) asset = net_position account asset

-- `drift < REPRICE_BPS`; without a last mid the drift is infinite.
abbrev pub steady : Quoting → ℤ → ℤ → ℕ → Bool
steady q mid last_mid mark_ticks =
    not (same_ℤ last_mid (pos 0))
    && ltb ((pos_part (mid -ℤ last_mid) + neg_part (mid -ℤ last_mid)) * 10_000)
        (q.reprice_bps * max 1 mark_ticks)

abbrev pub reconcile_due : Seen → Market → Bool
reconcile_due seen m = (m.last_reconcile == 0) || ltb 45_000 (seen.now - m.last_reconcile)

abbrev pub is_short : Rungs → Rungs → Market → Bool
is_short bids asks m =
    ltb (length m.bids.model) (length bids) || ltb (length m.asks.model) (length asks)

-- The cooldown: nothing is to be done.
abbrev pub calm : Quoting → Seen → Rungs → Rungs → ℤ → ℕ → Market → Bool
calm q seen bids asks mid mark_ticks m =
    steady q mid m.last_mid mark_ticks
    && (not (is_short bids asks m) && (not (reconcile_due seen m) && not (m.last_quote == 0)))

abbrev pub cleared : ℕ → Desk → Desk
cleared landed d = record { model = []; book = if ltb 0 landed then (λ _. []) else d.book }

module _ (w : Wire) where
  -- `cancelAllOrders`, whose failure is swallowed.
  unfoldable pub reconcile : Seen → Market → Market
  reconcile seen m =
      let o = send w m.attempts in
      record m {
        bids = cleared o.landed m.bids;
        asks = cleared o.landed m.asks;
        last_reconcile = seen.now;
        attempts = o.next;
      }

  -- The two sides, and then what is to be placed: the bids' rungs stand before the asks'.
  unfoldable pub lay : Rungs → Rungs → Market → Market
  unfolding apply_side place_all
  lay bids asks m =
      let ((b, n), to_bids) = apply_side w bids (m.bids, m.attempts) in
      let ((a, n'), to_asks) = apply_side w asks (m.asks, n) in
      let (b', n'') = place_all w to_bids (b, n') in
      let (a', n''') = place_all w to_asks (a, n'') in
      record m { bids = b'; asks = a'; attempts = n''' }

  abbrev pub requote : Seen → Rungs → Rungs → ℤ → Market → Market
  requote seen bids asks mid m =
      let fresh = if reconcile_due seen m then reconcile seen m else m in
      record (lay bids asks fresh) { last_mid = mid; last_quote = seen.now }

module _ (w : Wire) (round : Rounder) (q : Quoting) where
  abbrev pub quote_at : Seen → ℕ → ℤ → Market → Market
  quote_at seen mark_ticks position m =
      let bids = desired_bids round q mark_ticks position in
      let asks = desired_asks round q mark_ticks position in
      let mid = mid_of round q mark_ticks position in
      if calm q seen bids asks mid mark_ticks m then m else requote w seen bids asks mid m

  -- One market's cycle; `tick` is its tick size. A market whose price cannot be read is left
  -- alone, and so is one where the portfolio is too short to read a position out of it; where the portfolio
  -- itself cannot be read, the position is taken as 0.
  unfoldable pub quote_market : ℕ → ℕ → Seen → Market → Market
  unfolding lay reconcile
  quote_market tick asset seen m = elim seen.mark [
    | none ↦ m
    | some mark ↦ if mark == 0 then m else elim (position_seen seen.portfolio asset) [
      | none ↦ m
      | some position ↦ quote_at seen (mark / tick) position m
    ]
  ]
