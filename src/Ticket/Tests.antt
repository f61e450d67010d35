-- ===== src/Ticket/Tests.antt =====
-- The ticket at a concrete market and account.
use anqa_core.Common.{
  ◌≡◌, ◌^◌, ◌<◌, ◌++◌, refl, true, false, none, some, [], ◌∷◌, ltb, leb, lt→leb, le→leb,
  if◌then◌else◌, arith, ◌+◌,
}
use anqa_core.Common.Ratio.{whole, floor_ratio, ◌*ᵣ◌}
use anqa_core.Maker.Tests.{half_up}
use anqa_core.Money.Tests.{at_first, silent}
use anqa_core.Sessions.Tests.{clone, fresh_page}
use anqa_core.Ticket.{gtc, Ticket, Quote, per_lot, lots_of, blocker, below_one_lot}
use anqa_core.Ticket.Order.{order_of}
use anqa_core.Ticket.Order.Sound.{IsFloor, IsSound, order_of-IsSound}
use anqa_core.Ticket.Stops.{take_profit, stop_loss, Net, armed, not_settled_yet, Desk, arm_stops}
use anqa_core.Ticket.Stops.Arming.{placed_of, wanted}
use anqa_core.Ticket.Stops.Once.{arm_stops-once, arm_stops-repeats}
use anqa_core.Ticket.Submit.{Trade, Click, submit}

-- A hundred dollars at five times, long at the market, with both stops.
abbrev long_ticket : Ticket
long_ticket = record {
  is_long = true;
  is_limit = false;
  tif = gtc;
  hidden = true;
  price = whole 0;
  pay = whole 100;
  lev = whole 5;
  stops_open = true;
  take_profit = whole 60_000;
  stop_loss = whole 45_000;
}

-- An asset at 50,000 dollars, in lots of a thousandth, with ticks of 100 atoms.
abbrev market : Quote
market = record {
  mark = some (whole 50_000);
  lot_fraction = record { num = 1; den = 1_000 };
  tick = 100;
  band_bps = 500;
  floors = floor_ratio;
}

floors-IsFloor : IsFloor market.floors
floors-IsFloor = record { near = λ a b h k fits. (omega arith, omega arith) }

ten_lots : lots_of long_ticket market ≡ 10
unfolding lots_of floor_ratio
ten_lots = refl

unblocked : blocker long_ticket market ≡ none
unfolding blocker lots_of floor_ratio
unblocked = refl

few_lots : floor_ratio (long_ticket.pay *ᵣ long_ticket.lev) (per_lot long_ticket market) < 2 ^ 50
unfolding floor_ratio
few_lots = omega arith

small : blocker (record long_ticket { pay = whole 9 }) market ≡ some below_one_lot
unfolding blocker lots_of floor_ratio
small = refl

order_of-IsSound_example : IsSound long_ticket market (order_of half_up long_ticket market 7)
order_of-IsSound_example =
    order_of-IsSound half_up long_ticket market 7 (ground arith) (ground arith) floors-IsFloor
      few_lots unblocked

-- The position shows at the third read.
abbrev settling : Net
settling = record {
  position = λ n. if ltb n 2 then some none else some (some true);
  now = λ n. 5;
  rejects = λ kind n. false;
  lands = λ kind n. false;
}

abbrev empty_desk : Desk
empty_desk = record { awaits = 0; placed = []; notes = [] }

arm_stops-once_example :
    let end = arm_stops half_up settling long_ticket market 12 empty_desk in
    (end.placed ≡ wanted half_up long_ticket market 5 ++ []) × (end.notes ≡ armed ∷ [])
arm_stops-once_example =
    arm_stops-once half_up settling long_ticket market 12 2 empty_desk (ground arith)
      (λ kind n. refl) (λ i h e. ground (arith, h, e)) refl

-- The position is there, no stop loss goes through, and there are slots for four triggers.
abbrev bouncing : Net
bouncing = record {
  position = λ n. some (some true);
  now = λ n. 5;
  rejects = λ kind n. elim kind [ take_profit ↦ leb 12 n | stop_loss ↦ true ];
  lands = λ kind n. false;
}

arm_stops-repeats_example :
    let end = arm_stops half_up bouncing long_ticket market (4 + 8) empty_desk in
    (placed_of take_profit end.placed ≡ 4 + placed_of take_profit [])
    × ((placed_of stop_loss end.placed ≡ placed_of stop_loss [])
        × (end.notes ≡ not_settled_yet ∷ []))
arm_stops-repeats_example =
    arm_stops-repeats half_up bouncing long_ticket market (λ kind n. refl) (λ n. refl) (λ n. refl)
      refl refl 4 8 empty_desk (λ n h. lt→leb 12 n h) (λ n h. le→leb 12 n h)

-- A first trade: the account has to be opened, and the network is silent.
abbrev first_click : Click
first_click = record {
  funds = silent;
  grants = clone;
  rejects = false;
  lands = false;
  key = 7;
  ticket = long_ticket;
  quote = market;
  setup = record { opens = true; delegates = true; grants = true; is_ready = true };
}

-- A later one, by an account that needs nothing.
abbrev later_click : Click
later_click = record first_click {
  setup = record { opens = false; delegates = false; grants = false; is_ready = true };
}

abbrev before : Trade
before = record { money = at_first; page = fresh_page; placed = [] }

later-places :
    (submit half_up later_click 3 before).1.placed ≡ order_of half_up long_ticket market 3 ∷ []
unfolding submit blocker lots_of floor_ratio
later-places = refl
