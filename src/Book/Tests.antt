-- ===== src/Book/Tests.antt =====
-- A side of four slots: two bids, one free slot, and one slot that is not linked.
use anqa_core.Common.{ℕ, ◌≡◌, refl, true, some, List, [], ◌∷◌, arith}
use anqa_core.Book.{Resting, BookSide, nil, walk_side, walk_from, insert}
use anqa_core.Book.Chain.{actives, Chain}
use anqa_core.Book.Insert.{insert_sorted, Fresh, Distinct}
use anqa_core.Book.Order.{Ordered, Leads, IsLatest}
use anqa_core.Book.Priority.{IsSide, walk_side-insert}

abbrev bid_of : ℕ → ℕ → Resting
bid_of price seq = record {
  client_order_id = seq;
  price_in_ticks = price;
  base_lots = 10;
  seq = seq;
  active = 1;
  hidden = 0;
}

abbrev bids : BookSide
bids = record {
  orders =
      record { order = bid_of 100 1; next = 2 }
      ∷ record { order = record (bid_of 0 0) { active = 0 }; next = 3 }
      ∷ record { order = bid_of 98 2; next = nil }
      ∷ record { order = record (bid_of 0 0) { active = 0 }; next = nil }
      ∷ [];
  head = 0;
}

abbrev linked : List (ℕ × Resting)
linked = (0, bid_of 100 1) ∷ (2, bid_of 98 2) ∷ []

before-insert : walk_side bids ≡ bid_of 100 1 ∷ bid_of 98 2 ∷ []
unfolding walk_side walk_from
before-insert = refl

bids-Chain : Chain bids.orders bids.head linked
unfolding Chain
bids-Chain = (
  refl,
  ((λ e. ground (arith, e)), (2, (refl, (refl, ((λ e. ground (arith, e)), (nil, (refl, refl))))))),
)

one_is_Fresh : Fresh 1 linked
unfolding Fresh
one_is_Fresh = ((λ e. ground (arith, e)), ((λ e. ground (arith, e)), tt))

linked-Distinct : Distinct linked
unfolding Distinct Fresh
linked-Distinct = (((λ e. ground (arith, e)), tt), (tt, tt))

linked-Ordered : Ordered true linked
unfolding Ordered Leads
linked-Ordered = (refl, (tt, tt))

third-IsLatest : IsLatest (bid_of 99 3) linked
unfolding IsLatest
third-IsLatest = (ground arith, (ground arith, tt))

bids-IsSide : IsSide true bids linked
bids-IsSide = record { chained = bids-Chain; distinct = linked-Distinct; ordered = linked-Ordered }

walk_side-insert_example :
    (side : BookSide) × ((insert true (bid_of 99 3) 1 4 bids ≡ some side)
      × (IsSide true side (insert_sorted true (1, bid_of 99 3) linked)
          × (walk_side side ≡ actives (insert_sorted true (1, bid_of 99 3) linked))))
walk_side-insert_example =
    walk_side-insert true (bid_of 99 3) 1 4 bids linked bids-IsSide (ground arith)
      (λ e. ground (arith, e)) one_is_Fresh third-IsLatest (ground arith) (ground arith)
