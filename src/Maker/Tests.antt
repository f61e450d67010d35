-- ===== src/Maker/Tests.antt =====
-- The market maker at concrete settings, prices and wires.
use native.Mathlib.Nat.{le-div_iff_mul-le, div-eq_of_lt-le}
use anqa_core.Common.{
  ℕ, suc, ◌+◌, ◌-◌, ◌*◌, ◌/◌, ◌≤◌, ◌<◌, ◌≡◌, refl, ap, true, false, none, some, [], ◌∷◌, arith, ltb,
}
use anqa_core.Common.Int.{ℤ, pos, negsuc, ◌-ℤ◌, ◌≤ℤ◌, ◌+ℤ◌, ◌*ℤ◌}
use anqa_core.Maker.{
  Rung, Quoting, Rounder, IsRounding, mid_of, offset, scaled_lots, bid_rung, ask_rung, desired_bids,
  desired_asks, rungs_from, bid_base, ask_base,
}
use mathlib.Core.List.Memᴰ
use anqa_core.Common.{inl, inr, Bool-cases, ◌==◌, if◌then◌else◌}
use anqa_core.Common.Dict.{lookup, assign, erase}
use anqa_core.Maker.Send.{
  Fault, Attempt, Wire, IsHonest, IsSend, sent, threw, with_session, send_from, send, send-IsSend,
}
use anqa_core.Maker.Cycle.{
  Desk, Market, Seen, at, quote_market, reconcile, modify_rung, want_one, want_all, cancel_rung,
  drop_all, apply_side, place_one, place_all, lay,
}
use anqa_core.Maker.Cycle.Exact.{IsExact}
use anqa_core.Maker.Cycle.Sound.{IsBacked}
use anqa_core.Maker.Cycle.Refines.{
  IsSynced, Cycle, view, ladder, quote_market-refines, quote_market-heals,
}
use anqa_core.Maker.Cycle.Backed.{IsKnown, quote_market-IsKnown}
use anqa_core.Maker.Ladder.{IsLadder, desired-IsLadder}

-- `Math.round` of the exact quotient, for a divisor above 0: halves go up.
abbrev pub half_up : Rounder
half_up (pos n) d = pos ((2 * n + d) / (2 * d))
half_up (negsuc n) d = pos 0 -ℤ pos ((2 * suc n + d - 1) / (2 * d))

div_mono : (a b d : ℕ) → 0 < d → a ≤ b → a / d ≤ b / d
div_mono a b d h le =
    (le-div_iff_mul-le {k = d} {x = a / d} {y = b} h).1
      (ground (arith, (le-div_iff_mul-le {k = d} {x = a / d} {y = a} h).0 (omega arith)))

half_up-whole : (k d : ℕ) → 0 < d → half_up (pos (k * d)) d ≡ pos k
half_up-whole k d h =
    ap pos (div-eq_of_lt-le {k = k} (2 * d) {m = 2 * (k * d) + d} (ground arith) (ground arith))

half_up-rising : (a b : ℤ) (d : ℕ) → 0 < d → a ≤ℤ b → half_up a d ≤ℤ half_up b d
unfolding ◌-ℤ◌
half_up-rising (pos a) (pos b) d h le =
    ground (arith, div_mono (2 * a + d) (2 * b + d) (2 * d) (omega arith) (omega arith))
half_up-rising (negsuc a) (negsuc b) d h le =
    ground
      (arith, div_mono (2 * suc b + d - 1) (2 * suc a + d - 1) (2 * d) (omega arith) (omega arith))
half_up-rising (negsuc a) (pos b) d h le = ground arith
half_up-rising (pos a) (negsuc b) d h le = absurd (omega arith)

pub half_up-IsRounding : IsRounding half_up
half_up-IsRounding = record { whole = half_up-whole; rising = half_up-rising }

-- Two levels, 20 and 40 basis points from the mid, 100 and 70 lots, a cap of 1,000 lots.
abbrev quoting : Quoting
quoting = record {
  levels = 2;
  step_bps = 20;
  skew_bps = 50;
  max_position = 1_000;
  reprice_bps = 5;
  size = λ i. elim (ltb i 2) [ true ↦ 100 | false ↦ 70 ];
}

-- At a mark of 10,000 ticks and flat; long 400 lots it leans down by 20 ticks and halves nearly its bids.
flat_bids :
    desired_bids half_up quoting 10_000 (pos 0)
    ≡ (1, record { coid = bid_base + 1; price = pos 9_980; lots = 100 })
      ∷ (2, record { coid = bid_base + 2; price = pos 9_960; lots = 70 })
      ∷ []
unfolding desired_bids rungs_from bid_rung mid_of offset scaled_lots ◌-ℤ◌ ◌*ℤ◌
flat_bids = refl

long_asks :
    desired_asks half_up quoting 10_000 (pos 400)
    ≡ (1, record { coid = ask_base + 1; price = pos 10_000; lots = 100 })
      ∷ (2, record { coid = ask_base + 2; price = pos 10_020; lots = 70 })
      ∷ []
unfolding desired_asks rungs_from ask_rung mid_of offset scaled_lots ◌-ℤ◌ ◌+ℤ◌ ◌*ℤ◌
long_asks = refl

long_bids :
    desired_bids half_up quoting 10_000 (pos 400)
    ≡ (1, record { coid = bid_base + 1; price = pos 9_960; lots = 60 })
      ∷ (2, record { coid = bid_base + 2; price = pos 9_940; lots = 42 })
      ∷ []
unfolding desired_bids rungs_from bid_rung mid_of offset scaled_lots ◌-ℤ◌ ◌*ℤ◌
long_bids = refl

desired-IsLadder_example : IsLadder half_up quoting 10_000 (pos 400)
desired-IsLadder_example =
    desired-IsLadder half_up quoting 10_000 (pos 400) half_up-IsRounding (omega arith)

-- Every write succeeds.
abbrev good_wire : Wire
good_wire = record { attempt = λ _. record { lands = true; fault = none }; reauth = λ _. none }

-- The first three attempts are refused for a reason that passes, the third of them has taken effect all the same;
-- the fourth finds the session expired, and all others succeed.
abbrev transient : Fault
transient = record { auth = false; transient = true; stale = false; code_6010 = false }

abbrev expired : Fault
expired = record { auth = true; transient = false; stale = false; code_6010 = false }

abbrev bad_attempt : ℕ → Attempt
bad_attempt n =
    if ltb n 2
    then record { lands = false; fault = some transient }
    else if n == 2
    then record { lands = true; fault = some transient }
    else if n == 3
    then record { lands = false; fault = some expired }
    else record { lands = true; fault = none }

abbrev bad_wire : Wire
bad_wire = record { attempt = bad_attempt; reauth = λ _. none }

bad_wire-IsHonest : IsHonest bad_wire
bad_wire-IsHonest n e = ground (arith, e)

bad_wire-threw : send bad_wire 0 ≡ record { landed = 1; report = threw transient; next = 3 }
unfolding send send_from with_session
bad_wire-threw = refl

bad_wire-renewed : send bad_wire 3 ≡ record { landed = 1; report = sent; next = 5 }
unfolding send send_from with_session
bad_wire-renewed = refl

send-IsSend_example : IsSend 3 0 0 (send bad_wire 0)
send-IsSend_example = send-IsSend bad_wire bad_wire-IsHonest 0

-- A market whose two best rungs stand at an old price, quoted and reconciled a moment ago.
abbrev old_bid : Rung
old_bid = record { coid = bid_base + 1; price = pos 8_980; lots = 100 }

abbrev old_ask : Rung
old_ask = record { coid = ask_base + 1; price = pos 9_020; lots = 100 }

abbrev new_bid : Rung
new_bid = record { coid = bid_base + 1; price = pos 9_980; lots = 100 }

abbrev old_desk : Rung → Desk
old_desk r = record { model = (1, r) ∷ []; book = at (λ _. []) r.coid (r ∷ []) }

abbrev old_market : Market
old_market = record {
  bids = old_desk old_bid;
  asks = old_desk old_ask;
  last_mid = pos 9_000;
  last_quote = 1_000;
  last_reconcile = 1_000;
  attempts = 0;
}

abbrev seen_at : ℕ → Seen
seen_at now = record { mark = some 100_000; portfolio = none; now = now }

abbrev cycle : Wire → ℕ → Market → Market
cycle w now m = quote_market w half_up quoting 10 7 (seen_at now) m

old_desk-IsExact : (base : ℕ) (r : Rung) → r.coid ≡ base + 1 → IsExact base (old_desk r)
unfolding lookup
old_desk-IsExact base r id = record {
  named = ((id, omega arith), tt);
  exact = λ lvl. ground (arith, id);
}

old_desk-IsBacked : (base : ℕ) (r : Rung) → r.coid ≡ base + 1 → IsBacked base (old_desk r)
unfolding lookup
old_desk-IsBacked base r id = record {
  named = ((id, omega arith), tt);
  backed = λ lvl s e. elim (Bool-cases (1 == lvl)) [
    | inl here ↦
        let there : (base + lvl == r.coid) ≡ true = ground (arith, here, id) in
        let same : s ≡ r = ground (arith, here, e) in rw there (Memᴰ.head same)
    | inr other ↦ absurd (ground (arith, other, e))
  ];
}

quote_market-refines_example :
    IsSynced (cycle good_wire 1_100 old_market)
    × Cycle half_up quoting 10 7
        (seen_at 1_100)
        old_market
        (view (cycle good_wire 1_100 old_market))
quote_market-refines_example =
    quote_market-refines good_wire half_up quoting 10 7 (seen_at 1_100) old_market (λ n. refl)
      (omega arith)
      (record {
        bids_exact = old_desk-IsExact bid_base old_bid refl;
        asks_exact = old_desk-IsExact ask_base old_ask refl;
      })

-- A minute later a reconcile is due. Here the models have forgotten what rests.
abbrev lost_market : Market
lost_market = record old_market { bids = record (old_desk old_bid) { model = [] } }

quote_market-heals_example :
    IsSynced (cycle good_wire 61_000 lost_market)
    × (view (cycle good_wire 61_000 lost_market) ≡ ladder half_up quoting 10_000 (pos 0))
quote_market-heals_example =
    quote_market-heals good_wire half_up quoting 10 7 (seen_at 61_000) lost_market (λ n. refl)
      (omega arith) 100_000 (pos 0) refl refl refl refl

quote_market-IsKnown_example : IsKnown (cycle bad_wire 1_100 old_market)
quote_market-IsKnown_example =
    quote_market-IsKnown bad_wire bad_wire-IsHonest half_up quoting (omega arith) 10 7
      (seen_at 1_100) old_market
      (record {
        bids_backed = old_desk-IsBacked bid_base old_bid refl;
        asks_backed = old_desk-IsBacked ask_base old_ask refl;
      })

-- Every attempt at the first write is refused for a reason that passes, and no other one is.
abbrev slow_attempt : ℕ → Attempt
slow_attempt n =
    if ltb n 3
    then record { lands = false; fault = some transient }
    else record { lands = true; fault = none }

abbrev slow_wire : Wire
slow_wire = record { attempt = slow_attempt; reauth = λ _. none }

-- The modification of the best bid is given up: the model drops the level, though the order still rests, and the
-- next cycle places a second one with the same id.
slow_wire-twice :
    (cycle slow_wire 1_200 (cycle slow_wire 1_100 old_market)).bids.book (bid_base + 1)
    ≡ old_bid ∷ new_bid ∷ []
unfolding quote_market reconcile modify_rung want_one want_all cancel_rung drop_all apply_side
    place_one place_all lay send send_from with_session lookup assign erase desired_bids
    desired_asks rungs_from bid_rung ask_rung mid_of offset scaled_lots ◌-ℤ◌ ◌+ℤ◌ ◌*ℤ◌
slow_wire-twice = refl
