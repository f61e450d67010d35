-- ===== src/Ticket/Order/Sound.antt =====
-- What an order that nothing blocks is like, and the conversions there and back.
use native.Mathlib.Nat.{mul-pos, mul-div-le, lt-mul-div-succ}
use mathlib.Core.Path.{subst}
use anqa_core.Common.{
  ℕ, ◌+◌, ◌-◌, ◌*◌, ◌^◌, ◌<◌, ◌≤◌, ◌≡◌, ◌⊎◌, inl, inr, refl, ap, sym, ◌∙◌, Bool, true, false, not,
  none, some, if◌then◌else◌, arith, Bool-cases,
}
use anqa_core.Common.Int.{pos, pos_part}
use anqa_core.Common.Ratio.{Ratio, whole, IsRatio, ◌*ᵣ◌, ◌≤ᵣ◌, ◌<ᵣ◌, is_zero, floor_ratio}
use anqa_core.Maker.{Rounder, IsRounding}
use anqa_core.Actions.Trading.{OrderType, limit, post_only, OrderArgs}
use anqa_core.Ticket.{
  Ticket, Quote, can_rest, price_of, per_lot, lots_of, out_of_band, outside, misplaced, blocker,
}
use anqa_core.Ticket.Order.{type_of, ticks_to_usd, usd_to_ticks, order_of}

-- Doubles: below 2^50, where the rounding errors of the two products and of the quotient come to less
-- than one, a floor is off the exact one by at most one.
pub record IsFloor (floors : Ratio → Ratio → ℕ) : Type 0 where
  pub near :
      (a b : Ratio)
      → IsRatio a
      → 0 < b.num
      → floor_ratio a b < 2 ^ 50
      → (floors a b ≤ floor_ratio a b + 1) × (floor_ratio a b ≤ floors a b + 1)

-- What holds of an order that nothing blocks.
pub record IsSound (t : Ticket) (q : Quote) (o : OrderArgs) : Type 0 where
  pub sized : 0 < o.base_lots
  pub affordable : whole (o.base_lots - 1) *ᵣ per_lot t q ≤ᵣ t.pay *ᵣ t.lev
  pub largest : t.pay *ᵣ t.lev <ᵣ whole (o.base_lots + 2) *ᵣ per_lot t q
  pub exact :
      q.floors (t.pay *ᵣ t.lev) (per_lot t q) ≡ floor_ratio (t.pay *ᵣ t.lev) (per_lot t q)
      → (whole o.base_lots *ᵣ per_lot t q ≤ᵣ t.pay *ᵣ t.lev)
        × (t.pay *ᵣ t.lev <ᵣ whole (o.base_lots + 1) *ᵣ per_lot t q)
  pub in_band :
      (mark : Ratio)
      → q.mark ≡ some mark
      → 0 < q.band_bps
      → t.is_limit ≡ true
      → (whole (10_000 - q.band_bps) *ᵣ mark ≤ᵣ whole 10_000 *ᵣ t.price)
        × (whole 10_000 *ᵣ t.price ≤ᵣ whole (10_000 + q.band_bps) *ᵣ mark)
  pub concealed : o.hidden ≡ some true → (o.order_type ≡ limit) ⊎ (o.order_type ≡ post_only)
  pub protected :
      t.stops_open ≡ true
      → (is_zero t.take_profit ≡ false
          → if t.is_long then price_of t q <ᵣ t.take_profit else t.take_profit <ᵣ price_of t q)
        × (is_zero t.stop_loss ≡ false
            → if t.is_long then t.stop_loss <ᵣ price_of t q else price_of t q <ᵣ t.stop_loss)

floor_ratio-bounds :
    (a b : Ratio)
    → IsRatio a
    → 0 < b.num
    → (whole (floor_ratio a b) *ᵣ b ≤ᵣ a) × (a <ᵣ whole (floor_ratio a b + 1) *ᵣ b)
unfolding floor_ratio
floor_ratio-bounds a b h k =
    let d = a.den * b.num in
    let n = a.num * b.den in
    let some_den : 0 < d = mul-pos {m = a.den} {n = b.num} h k in
    let low = mul-div-le n d in
    let high = lt-mul-div-succ n {b = d} some_den in (grind (arith, low), grind (arith, high))

-- A bound on lots is kept where there are fewer of them, or more.
fewer-lots : (m n x y z : ℕ) → m ≤ n → n * x * y ≤ z → m * x * y ≤ z
fewer-lots m n x y z h k = grind arith

more-lots : (m n x y z : ℕ) → m ≤ n → z < m * x * y → z < n * x * y
more-lots m n x y z h k = grind arith

module _ (t : Ticket) (q : Quote) where
  blocker-sized : blocker t q ≡ none → 1 ≤ lots_of t q
  unfolding blocker
  blocker-sized free = ground (arith, free)

  lots_of-bounds :
      IsRatio t.pay
      → IsRatio t.lev
      → IsFloor q.floors
      → floor_ratio (t.pay *ᵣ t.lev) (per_lot t q) < 2 ^ 50
      → 1 ≤ lots_of t q
      → (whole (lots_of t q - 1) *ᵣ per_lot t q ≤ᵣ t.pay *ᵣ t.lev)
        × (t.pay *ᵣ t.lev <ᵣ whole (lots_of t q + 2) *ᵣ per_lot t q)
  unfolding lots_of
  lots_of-bounds pay_ok lev_ok doubles fits sized = elim (Bool-cases (is_zero (per_lot t q))) [
    | inl e ↦ ground (arith, sized, e)
    | inr e ↦
        let some_price : 0 < (per_lot t q).num = ground (arith, e) in
        let some_den : IsRatio (t.pay *ᵣ t.lev) = mul-pos pay_ok lev_ok in
        let a = t.pay *ᵣ t.lev in
        let b = per_lot t q in
        let f = floor_ratio a b in
        let n = q.floors a b in
        let same : lots_of t q ≡ n = rw (e) refl in
        let (low, high) = floor_ratio-bounds a b some_den some_price in
        let (above, below) = doubles.near a b some_den some_price fits in
        subst (λ n. (whole (n - 1) *ᵣ b ≤ᵣ a) × (a <ᵣ whole (n + 2) *ᵣ b)) (sym same)
          (
            fewer-lots (n - 1) f b.num a.den (a.num * (1 * b.den)) (omega arith) low,
            more-lots (f + 1) (n + 2) b.num a.den (a.num * (1 * b.den)) (omega arith) high,
          )
  ]

  lots_of-exact :
      IsRatio t.pay
      → IsRatio t.lev
      → 1 ≤ lots_of t q
      → q.floors (t.pay *ᵣ t.lev) (per_lot t q) ≡ floor_ratio (t.pay *ᵣ t.lev) (per_lot t q)
      → (whole (lots_of t q) *ᵣ per_lot t q ≤ᵣ t.pay *ᵣ t.lev)
        × (t.pay *ᵣ t.lev <ᵣ whole (lots_of t q + 1) *ᵣ per_lot t q)
  unfolding lots_of
  lots_of-exact pay_ok lev_ok sized same = elim (Bool-cases (is_zero (per_lot t q))) [
    | inl e ↦ ground (arith, sized, e)
    | inr e ↦
        let a = t.pay *ᵣ t.lev in
        let b = per_lot t q in
        let some_price : 0 < b.num = ground (arith, e) in
        let some_den : IsRatio a = mul-pos pay_ok lev_ok in
        let computed : lots_of t q ≡ q.floors a b = rw (e) refl in
        subst (λ n. (whole n *ᵣ b ≤ᵣ a) × (a <ᵣ whole (n + 1) *ᵣ b)) (sym (computed ∙ same))
          (floor_ratio-bounds a b some_den some_price)
  ]

  blocker-stops :
      blocker t q ≡ none
      → t.stops_open ≡ true
      → (misplaced t.is_long t.take_profit (price_of t q) ≡ false)
        × (misplaced (not t.is_long) t.stop_loss (price_of t q) ≡ false)
  unfolding blocker
  blocker-stops free wanted = ground (arith, free, wanted)

  blocker-band :
      blocker t q ≡ none → t.is_limit ≡ true → (is_zero t.price ≡ false) × (out_of_band t q ≡ false)
  unfolding blocker
  blocker-band free limited = ground (arith, free, limited)

outside-inside :
    (price mark : Ratio) (bps : ℕ)
    → outside price bps (some mark) ≡ false
    → (whole (10_000 - bps) *ᵣ mark ≤ᵣ whole 10_000 *ᵣ price)
      × (whole 10_000 *ᵣ price ≤ᵣ whole (10_000 + bps) *ᵣ mark)
outside-inside price mark bps h = ground (arith, h)

module _ (t : Ticket) (q : Quote) where
  limit-outside :
      (mark : Ratio)
      → out_of_band t q ≡ false
      → q.mark ≡ some mark
      → 0 < q.band_bps
      → t.is_limit ≡ true
      → is_zero t.price ≡ false
      → outside t.price q.band_bps (some mark) ≡ false
  limit-outside mark h e some_band limited priced = ground (arith, h, e, some_band, limited, priced)

type_of-rests :
    (t : Ticket) → can_rest t ≡ true → (type_of t ≡ limit) ⊎ (type_of t ≡ OrderType.post_only)
type_of-rests t h = ground (arith, h)

misplaced-above :
    (stop entry : Ratio) → misplaced true stop entry ≡ false → is_zero stop ≡ false → entry <ᵣ stop
misplaced-above stop entry h k = ground (arith, h, k)

misplaced-below :
    (stop entry : Ratio) → misplaced false stop entry ≡ false → is_zero stop ≡ false → stop <ᵣ entry
misplaced-below stop entry h k = ground (arith, h, k)

misplaced-side :
    (long : Bool) (stop entry : Ratio)
    → misplaced long stop entry ≡ false
    → is_zero stop ≡ false
    → if long then entry <ᵣ stop else stop <ᵣ entry
misplaced-side true = misplaced-above
misplaced-side false = misplaced-below

misplaced-other :
    (long : Bool) (stop entry : Ratio)
    → misplaced (not long) stop entry ≡ false
    → is_zero stop ≡ false
    → if long then stop <ᵣ entry else entry <ᵣ stop
misplaced-other true = misplaced-below
misplaced-other false = misplaced-above

module _ (round : Rounder) (t : Ticket) (q : Quote) where
  -- If nothing blocks the ticket, whose collateral and leverage are quotients and pay for fewer than 2^50
  -- lots, and a floor of doubles is off the exact one by at most one there, the order that it sends asks
  -- for at least one lot; one lot less than it asks for costs no more than collateral times leverage, and
  -- two lots more would; where the floor of the doubles is the exact one, the lots themselves cost no more,
  -- and one lot more would; a limit price lies in the execution band, where there is a band and a mark; only
  -- an order that can rest is hidden; and with the stops open, a take profit stands on the winning side
  -- of the entry price and a stop loss on the losing side.
  pub order_of-IsSound :
      (now : ℕ)
      → IsRatio t.pay
      → IsRatio t.lev
      → IsFloor q.floors
      → floor_ratio (t.pay *ᵣ t.lev) (per_lot t q) < 2 ^ 50
      → blocker t q ≡ none
      → IsSound t q (order_of round t q now)
  unfolding order_of
  order_of-IsSound now pay_ok lev_ok doubles fits free =
      let sized : 1 ≤ lots_of t q = blocker-sized t q free in
      let (low, high) = lots_of-bounds t q pay_ok lev_ok doubles fits sized in
      record {
        sized = sized;
        affordable = low;
        largest = high;
        exact = λ same. lots_of-exact t q pay_ok lev_ok sized same;
        in_band = λ mark e some_band limited.
            let (priced, inside) = blocker-band t q free limited in
            outside-inside t.price mark q.band_bps
              (limit-outside t q mark inside e some_band limited priced);
        concealed = λ e. type_of-rests t (ground (arith, e));
        protected = λ wanted.
            let (above, below) = blocker-stops t q free wanted in
            (
              misplaced-side t.is_long t.take_profit (price_of t q) above,
              misplaced-other t.is_long t.stop_loss (price_of t q) below,
            );
      }

-- Ticks shown in dollars and read back are the same ticks, where there is a tick size.
pub usd_to_ticks-ticks_to_usd :
    (round : Rounder) (rounding : IsRounding round) (ticks tick : ℕ)
    → 0 < tick
    → usd_to_ticks round (ticks_to_usd ticks tick) tick ≡ ticks
unfolding usd_to_ticks ticks_to_usd
usd_to_ticks-ticks_to_usd round rounding ticks tick some_tick =
    let same : ticks * tick * 1_000_000 ≡ ticks * (1_000_000 * tick) = grind arith in
    subst (λ n. pos_part (round (pos n) (1_000_000 * tick)) ≡ ticks) (sym same)
      (ap pos_part (
        rounding.whole ticks (1_000_000 * tick)
          (mul-pos {m = 1_000_000} {n = tick} (ground arith) some_tick)))
