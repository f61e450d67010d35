-- ===== src/Ticket.antt =====
-- web/components/TradeForm.tsx: the order ticket, without its rendering. Typed amounts are taken as
-- quotients that are not negative; one that is empty or cannot be read is 0, as `Number(x) || 0` makes it.
pub mod Order
pub mod Stops
pub mod Submit
mod Tests
use anqa_core.Common.{
  ℕ, ◌+◌, ◌-◌, ◌*◌, ◌<◌, ◌≤◌, Bool, true, false, not, ◌&&◌, ◌||◌, Option, none, some, ltb, leb,
  ◌==◌, if◌then◌else◌,
}
use anqa_core.Common.Ratio.{Ratio, whole, ◌*ᵣ◌, is_zero, lt_ratio, le_ratio}

pub data Tif : Type 0 where
  gtc post_only ioc fok : Tif

pub record Ticket : Type 0 where
  pub is_long : Bool
  pub is_limit : Bool
  pub tif : Tif
  pub hidden : Bool
  pub price : Ratio
  pub pay : Ratio
  pub lev : Ratio
  pub stops_open : Bool
  pub take_profit : Ratio
  pub stop_loss : Ratio

-- What the ticket knows of the market: the mark and the fraction of an asset in a lot, per asset,
-- the tick in atoms, and the execution band; and how `Math.floor(a / b)` of two amounts comes out in
-- doubles, which is off the exact floor by one where a product or the quotient is rounded across a whole
-- number.
pub record Quote : Type 0 where
  pub mark : Option Ratio
  pub lot_fraction : Ratio
  pub tick : ℕ
  pub band_bps : ℕ
  pub floors : Ratio → Ratio → ℕ

abbrev pub rests_as : Tif → Bool
rests_as gtc = true
rests_as post_only = true
rests_as ioc = false
rests_as fok = false

abbrev pub can_rest : Ticket → Bool
can_rest t = t.is_limit && rests_as t.tif

abbrev pub mark_or_zero : Option Ratio → Ratio
mark_or_zero none = whole 0
mark_or_zero (some m) = m

-- `effPrice`
abbrev pub price_of : Ticket → Quote → Ratio
price_of t q = if t.is_limit && not (is_zero t.price) then t.price else mark_or_zero q.mark

abbrev pub per_lot : Ticket → Quote → Ratio
per_lot t q = price_of t q *ᵣ q.lot_fraction

unfoldable pub lots_of : Ticket → Quote → ℕ
lots_of t q = if is_zero (per_lot t q) then 0 else q.floors (t.pay *ᵣ t.lev) (per_lot t q)

abbrev pub outside : Ratio → ℕ → Option Ratio → Bool
outside price bps none = false
outside price bps (some mark) =
    lt_ratio (whole 10_000 *ᵣ price) (whole (10_000 - bps) *ᵣ mark)
    || lt_ratio (whole (10_000 + bps) *ᵣ mark) (whole 10_000 *ᵣ price)

abbrev pub out_of_band : Ticket → Quote → Bool
out_of_band t q =
    ltb 0 q.band_bps
    && (t.is_limit && (not (is_zero (price_of t q)) && outside (price_of t q) q.band_bps q.mark))

-- A stop at `stop`, which is to stand above the entry price or below it.
abbrev pub misplaced : Bool → Ratio → Ratio → Bool
misplaced above stop entry =
    not (is_zero stop) && (if above then le_ratio stop entry else le_ratio entry stop)

pub data Blocker : Type 0 where
  no_collateral no_leverage no_price below_one_lot off_band bad_take_profit bad_stop_loss : Blocker

-- `blocker`, without its texts.
unfoldable pub blocker : Ticket → Quote → Option Blocker
unfolding lots_of
blocker t q =
    if is_zero t.pay
    then some no_collateral
    else if is_zero t.lev
    then some no_leverage
    else if t.is_limit && is_zero t.price
    then some no_price
    else if ltb (lots_of t q) 1
    then some below_one_lot
    else if out_of_band t q
    then some off_band
    else if t.stops_open && misplaced t.is_long t.take_profit (price_of t q)
    then some bad_take_profit
    else if t.stops_open && misplaced (not t.is_long) t.stop_loss (price_of t q)
    then some bad_stop_loss
    else none

-- `needsDeposit`, where `allocatable` is in atoms: a cent above it is let through.
abbrev pub needs_deposit : Ticket → ℕ → Bool
needs_deposit t allocatable =
    lt_ratio (record { num = allocatable + 10_000; den = 1_000_000 }) t.pay
