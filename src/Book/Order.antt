-- ===== src/Book/Order.antt =====
-- Priority, by price and then by arrival, is kept by an insertion.
use anqa_core.Common.{ℕ, ◌<◌, ◌≡◌, Bool, true, false, List, [], ◌∷◌, inl, inr, Bool-cases, arith}
use anqa_core.Book.{Resting, ranks_ahead}
use anqa_core.Book.Insert.{insert_sorted}

-- `a` ranks ahead of the first order.
unfoldable pub Leads : Bool → Resting → List (ℕ × Resting) → Type 0
Leads is_bid a [] = Unit
Leads is_bid a (x ∷ path) = ranks_ahead is_bid a x.1 ≡ true

-- Each order ranks ahead of the next one.
unfoldable pub Ordered : Bool → List (ℕ × Resting) → Type 0
Ordered is_bid [] = Unit
Ordered is_bid (x ∷ path) = Leads is_bid x.1 path × Ordered is_bid path

-- The order arrives after all of these.
unfoldable pub IsLatest : Resting → List (ℕ × Resting) → Type 0
IsLatest a [] = Unit
IsLatest a (x ∷ path) = (x.1.seq < a.seq) × IsLatest a path

ranks_behind :
    (is_bid : Bool) (a b : Resting)
    → b.seq < a.seq
    → ranks_ahead is_bid a b ≡ false
    → ranks_ahead is_bid b a ≡ true
ranks_behind true a b later h = ground (arith, later, h)
ranks_behind false a b later h = ground (arith, later, h)

Leads-insert_sorted :
    (is_bid : Bool) (x : Resting) (a : ℕ × Resting) (path : List (ℕ × Resting))
    → ranks_ahead is_bid x a.1 ≡ true
    → Leads is_bid x path
    → Leads is_bid x (insert_sorted is_bid a path)
unfolding Leads insert_sorted
Leads-insert_sorted is_bid x a [] h l = h
Leads-insert_sorted is_bid x a (y ∷ path) h l = elim (Bool-cases (ranks_ahead is_bid a.1 y.1)) [
  | inl e ↦ rw (e) h
  | inr e ↦ rw (e) l
]

pub insert_sorted-Ordered :
    (is_bid : Bool) (a : ℕ × Resting) (path : List (ℕ × Resting))
    → IsLatest a.1 path
    → Ordered is_bid path
    → Ordered is_bid (insert_sorted is_bid a path)
unfolding Ordered IsLatest Leads insert_sorted
insert_sorted-Ordered is_bid a [] late h = (tt, tt)
insert_sorted-Ordered is_bid a (x ∷ path) late h = elim (Bool-cases (ranks_ahead is_bid a.1 x.1)) [
  | inl e ↦ rw (e) (e, h)
  | inr e ↦
      let behind = ranks_behind is_bid a.1 x.1 late.0 e in
      let leads = Leads-insert_sorted is_bid x.1 a path behind h.0 in
      rw (e) (leads, insert_sorted-Ordered is_bid a path late.1 h.1)
]
