-- ===== src/Keeper/Requote/Tests.antt =====
-- The watchdog on concrete books and in one interleaving.
use anqa_core.Common.{ℕ, ◌≡◌, refl, true, false, none, some, [], ◌∷◌}
use anqa_core.Keeper.Requote.{
  Order, Book, Config, short_ladder, off_mark, healthy, reason_of, visible_levels, distinct, member,
  visible_prices, live, best_bid, best_ask, drifted, reserve, decide,
}
use anqa_core.Keeper.Requote.Slot.{
  World, Node, calm, begin, settle, Reach, start, next, timer, decided, IsValid, maker_slot-IsValid,
}

abbrev order : ℕ → Order
order p = record { active = 1; hidden = false; price_in_ticks = p }

-- Two levels a side; one bid is hidden, and one price stands twice.
abbrev small_book : Book
small_book = record {
  bids = order 990 ∷ order 990 ∷ order 985 ∷ record (order 999) { hidden = true } ∷ [];
  asks = order 1_010 ∷ order 1_015 ∷ record (order 7) { active = 0 } ∷ [];
}

abbrev config : Config
config = record { maker_levels = 2; drift_bps = 30; drift_min_ms = 60_000 }

-- Around a mark of 1,004,500 atoms the book is fine; at 1,100,000 it is off the mark, but not
-- again within a minute.
book-reasons :
    (reason_of config 100_000 0 small_book (some 1_004_500) ≡ healthy)
    × (reason_of config 100_000 0 small_book (some 1_100_000) ≡ off_mark)
    × (reason_of config 100_000 50_000 small_book (some 1_100_000) ≡ healthy)
    × (reason_of (record config { maker_levels = 3 }) 0 0 small_book none ≡ short_ladder 2 2)
unfolding reason_of visible_levels distinct member visible_prices live best_bid best_ask drifted
book-reasons = (refl, refl, refl, refl)

-- A child that cannot be started reports an error and no exit, and nothing is thrown.
abbrev orderly : Node
orderly = record { exits_after_error = false; spawn_throws = false }

-- Two timers fire; the first market starts a maker, and the second is turned away.
abbrev busy : World
busy = settle 1 500 off_mark (begin 2 (begin 1 calm))

busy-Reach : Reach orderly busy
unfolding begin settle reserve
busy-Reach = next (next (next start (timer 1)) (timer 2)) (decided 1 500 off_mark refl)

busy-venue :
    (busy.venue.maker_busy ≡ true)
    × (busy.venue.requoting 1 ≡ true)
    × (busy.venue.requoting 2 ≡ false)
unfolding begin settle reserve decide
busy-venue = (refl, refl, refl)

maker_slot-IsValid_example : IsValid busy
maker_slot-IsValid_example = maker_slot-IsValid refl refl busy-Reach
