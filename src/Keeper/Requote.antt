-- ===== src/Keeper/Requote.antt =====
-- app/keeper.ts: the requote watchdog. Book prices are ticks, the mark is quote atoms per lot, a
-- tick is 1,000 of them; drift is compared exactly, without the rounding of a float.
pub mod Slot
pub mod Decision
pub mod Delay
mod Tests
use anqa_core.Common.{
  ℕ, zero, suc, ◌+◌, ◌-◌, ◌*◌, ◌/◌, ◌^◌, Bool, true, false, not, ◌&&◌, ◌||◌, Option, none, some,
  List, [], ◌∷◌, ltb, leb, ◌==◌, if◌then◌else◌, min, max, length,
}

-- What the watchdog reads of an order, and of the two sides.
pub record Order : Type 0 where
  pub active : ℕ
  pub hidden : Bool
  pub price_in_ticks : ℕ

pub record Book : Type 0 where
  pub bids : List Order
  pub asks : List Order

unfoldable pub member : ℕ → List ℕ → Bool
member p [] = false
member p (q ∷ qs) = (p == q) || member p qs

-- `new Set(…)`: each price once.
unfoldable pub distinct : List ℕ → List ℕ
unfolding member
distinct [] = []
distinct (p ∷ ps) = let rest = distinct ps in if member p rest then rest else p ∷ rest

unfoldable pub visible_prices : List Order → List ℕ
visible_prices [] = []
visible_prices (o ∷ os) =
    let rest = visible_prices os in
    if (o.active == 1) && not o.hidden then o.price_in_ticks ∷ rest else rest

unfoldable pub visible_levels : List Order → ℕ
unfolding distinct visible_prices
visible_levels os = length (distinct (visible_prices os))

unfoldable pub live : List Order → List ℕ
live [] = []
live (o ∷ os) = let rest = live os in if o.active == 1 then o.price_in_ticks ∷ rest else rest

-- `Math.max(...)` and `Math.min(...)`; `none` is the infinity of an empty list.
unfoldable pub best_bid : List ℕ → Option ℕ
best_bid [] = none
best_bid (p ∷ ps) = elim (best_bid ps) [ none ↦ some p | some q ↦ some (max p q) ]

unfoldable pub best_ask : List ℕ → Option ℕ
best_ask [] = none
best_ask (p ∷ ps) = elim (best_ask ps) [ none ↦ some p | some q ↦ some (min p q) ]

-- Distance between two numbers.
abbrev pub dist : ℕ → ℕ → ℕ
dist a b = (a - b) + (b - a)

-- `driftBps > DRIFT_BPS`, where `mid = (bid + ask) / 2` and `markTicks = mark / 1000`, multiplied
-- out.
unfoldable pub drifted : ℕ → ℕ → ℕ → ℕ → Bool
drifted drift_bps bid ask mark = ltb (drift_bps * mark) (dist (500 * (bid + ask)) mark * 10_000)

pub data Reason : Type 0 where
  healthy : Reason
  short_ladder : ℕ → ℕ → Reason
  off_mark : Reason

-- The configuration: levels on each side, the drift that is let pass, and the floor between two
-- requotes for drift.
pub record Config : Type 0 where
  pub maker_levels : ℕ
  pub drift_bps : ℕ
  pub drift_min_ms : ℕ

-- Both sides are there and the mark is known.
abbrev pub check_drift : Config → ℕ → ℕ → Option ℕ → Option ℕ → Option ℕ → Reason
check_drift c now last_drift (some bid) (some ask) (some mark) =
    if ltb 0 mark && (drifted c.drift_bps bid ask mark && leb (last_drift + c.drift_min_ms) now)
    then off_mark
    else healthy
check_drift c now last_drift _ _ _ = healthy

-- The reason for a requote; `mark` is absent where the oracle could not be read.
unfoldable pub reason_of : Config → ℕ → ℕ → Book → Option ℕ → Reason
unfolding visible_levels live best_bid best_ask drifted
reason_of c now last_drift bk mark =
    let bid_levels = visible_levels bk.bids in
    let ask_levels = visible_levels bk.asks in
    if ltb bid_levels c.maker_levels || ltb ask_levels c.maker_levels
    then short_ladder bid_levels ask_levels
    else check_drift c now last_drift (best_bid (live bk.bids)) (best_ask (live bk.asks)) mark

-- `requoteDelay`: `jitter` is what `Math.random() * 0.3` adds, in whole milliseconds.
unfoldable pub base_delay : ℕ → ℕ
base_delay failures = min (15_000 * 2 ^ failures) (5 * 60_000)

unfoldable pub requote_delay : ℕ → ℕ → ℕ
unfolding base_delay
requote_delay failures r = base_delay failures + base_delay failures * 3 * r / (10 * 2 ^ 53)

-- The venue's slot for one maker, and each market's flag and counters.
pub record Venue : Type 0 where
  pub maker_busy : Bool
  pub requoting : ℕ → Bool
  pub failures : ℕ → ℕ
  pub last_drift : ℕ → ℕ

abbrev pub put : {A : Type 0} → (ℕ → A) → ℕ → A → ℕ → A
put f m a k = if k == m then a else f k

-- The reservation at the head of `requote`: the new state, and whether it goes on.
unfoldable pub reserve : ℕ → Venue → Venue × Bool
reserve m v =
    if v.maker_busy || v.requoting m
    then (v, false)
    else (record v { maker_busy = true; requoting = put v.requoting m true }, true)

unfoldable pub release_maker : ℕ → Venue → Venue
release_maker m v = record v { maker_busy = false; requoting = put v.requoting m false }

-- What `requote` does once it knows: the new state, and whether it has started a maker.
unfoldable pub decide : ℕ → ℕ → Reason → Venue → Venue × Bool
unfolding release_maker
decide m now healthy v = (release_maker m (record v { failures = put v.failures m 0 }), false)
decide m now (short_ladder b a) v = (v, true)
decide m now off_mark v = (record v { last_drift = put v.last_drift m now }, true)

unfoldable pub child_error : ℕ → Venue → Venue
unfolding release_maker
child_error m v = release_maker m (record v { failures = put v.failures m (v.failures m + 1) })

unfoldable pub child_exit : ℕ → ℕ → Venue → Venue
unfolding release_maker
child_exit m code v =
    release_maker m
      (record v { failures = put v.failures m (if code == 0 then 0 else v.failures m + 1) })
