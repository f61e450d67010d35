-- ===== src/Ticket/Order.antt =====
-- What the ticket sends: the conversions of web/lib/anqa.ts, and the arguments of `placeOrder`.
pub mod Sound
use native.Mathlib.Nat.{mul-pos, mul-div-le, lt-mul-div-succ}
use mathlib.Core.Path.{subst}
use anqa_core.Common.{
  ℕ, zero, suc, ◌+◌, ◌-◌, ◌*◌, ◌/◌, ◌%◌, ◌<◌, ◌≤◌, ◌≡◌, ◌⊎◌, inl, inr, refl, ap, sym, ◌∙◌, Bool,
  true, false, not, ◌&&◌, ◌||◌, Option, none, some, List, [], ltb, leb, ◌==◌, if◌then◌else◌, arith,
  Bool-cases, Option-cases,
}
use anqa_core.Common.Int.{ℤ, pos, pos_part, neg_part, ◌≤ℤ◌}
use anqa_core.Common.Ratio.{
  Ratio, whole, IsRatio, ◌*ᵣ◌, ◌≤ᵣ◌, ◌<ᵣ◌, is_zero, lt_ratio, le_ratio, floor_ratio,
}
use anqa_core.Maker.{Rounder, IsRounding}
use anqa_core.Actions.Trading.{
  Side, bid, ask, OrderType, limit, post_only, immediate_or_cancel, fill_or_kill, OrderArgs,
}
use anqa_core.Ticket.{
  Tif, gtc, ioc, fok, Ticket, Quote, can_rest, price_of, per_lot, lots_of, out_of_band, outside,
  misplaced, Blocker, blocker,
}

abbrev pub type_of : Ticket → OrderType
type_of t = if not t.is_limit then immediate_or_cancel else elim t.tif [
  | gtc ↦ limit
  | Tif.post_only ↦ post_only
  | ioc ↦ immediate_or_cancel
  | fok ↦ fill_or_kill
]

unfoldable pub ticks_to_usd : ℕ → ℕ → Ratio
ticks_to_usd ticks tick = record { num = ticks * tick; den = 1_000_000 }

module _ (round : Rounder) where
  unfoldable pub usd_to_ticks : Ratio → ℕ → ℕ
  usd_to_ticks price tick = pos_part (round (pos (price.num * 1_000_000)) (price.den * tick))

  -- `Math.round(payUsd * 1e6)`
  abbrev pub atoms_of : Ratio → ℕ
  atoms_of usd = pos_part (round (pos (usd.num * 1_000_000)) usd.den)

  -- A market order is bounded two per cent from the mark.
  abbrev pub bound_of : Ticket → Quote → Ratio
  bound_of t q =
      if t.is_limit
      then t.price
      else record { num = if t.is_long then 102 else 98; den = 100 } *ᵣ price_of t q

  unfoldable pub order_of : Ticket → Quote → ℕ → OrderArgs
  unfolding lots_of usd_to_ticks
  order_of t q now = record {
    side = if t.is_long then bid else ask;
    order_type = type_of t;
    price_in_ticks = usd_to_ticks (bound_of t q *ᵣ q.lot_fraction) q.tick;
    base_lots = lots_of t q;
    client_order_id = now % 2_000_000_000;
    collateral_atoms = some (atoms_of t.pay);
    hidden = some (t.hidden && can_rest t);
    makers = some [];
  }
