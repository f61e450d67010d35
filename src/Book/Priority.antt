-- ===== src/Book/Priority.antt =====
-- `insert`, and what `walkSide` reads after it.
use mathlib.Core.Path.{subst}
use anqa_core.Common.{
  ℕ, suc, ◌<◌, ◌≤◌, ◌≡◌, ◌≢◌, inl, inr, refl, ap, sym, ◌∙◌, Bool, true, false, some, List, [], ◌∷◌,
  set, length, get_elem?-set_self, arith, Bool-cases,
}
use anqa_core.Book.{
  Resting, RestingOrder, BookSide, nil, walk_side, ranks_ahead, goes_before, insert_after, insert,
}
use anqa_core.Book.Chain.{Chain, actives, walk_side-actives}
use anqa_core.Book.Order.{Ordered, IsLatest, insert_sorted-Ordered}
use anqa_core.Book.Insert.{
  insert_sorted, Fresh, Distinct, Chain-set, goes_before-nil, goes_before-ranks_ahead,
  insert_after-Inserted,
}

module _ (is_bid : Bool) (new : Resting) (slot : ℕ) where
  front : BookSide → BookSide
  front side = record {
    orders = set side.orders slot (record { order = new; next = side.head });
    head = slot;
  }

  insert-front :
      (side : BookSide) (k : ℕ)
      → goes_before is_bid new side.head side.orders ≡ true
      → insert is_bid new slot k side ≡ some (front side)
  unfolding insert front
  insert-front side k before = rw (before, insert) refl

  front-Chain :
      (side : BookSide) (path : List (ℕ × Resting))
      → slot < length side.orders
      → slot ≢ nil
      → Chain side.orders side.head path
      → Fresh slot path
      → Chain (front side).orders slot ((slot, new) ∷ path)
  unfolding Chain front
  front-Chain side path room real h fresh =
      let link : RestingOrder = record { order = new; next = side.head } in
      (
        refl,
        (
          real,
          (
            side.head,
            (
              get_elem?-set_self side.orders slot link room,
              Chain-set side.orders slot side.head link path fresh h,
            ),
          ),
        ),
      )

  insert-behind :
      (side : BookSide) (k : ℕ) (orders : List RestingOrder)
      → goes_before is_bid new side.head side.orders ≡ false
      → insert_after is_bid new slot k side.head side.orders ≡ some orders
      → insert is_bid new slot k side ≡ some (record side { orders = orders })
  unfolding insert
  insert-behind side k orders before goes = rw (before, goes, insert) refl

  -- A new order is linked before the first one of a side that it ranks ahead of.
  insert-walk :
      (side : BookSide) (k : ℕ) (path : List (ℕ × Resting))
      → slot < length side.orders
      → slot ≢ nil
      → Chain side.orders side.head path
      → Fresh slot path
      → Distinct path
      → length path ≤ k
      → (side' : BookSide) × ((insert is_bid new slot k side ≡ some side')
          × Chain side'.orders side'.head (insert_sorted is_bid (slot, new) path))
  unfolding insert_sorted Chain Fresh Distinct front
  insert-walk side k [] room real h fresh apart le =
      let chained = front-Chain side [] room real h fresh in
      (
        front side,
        (insert-front side k (goes_before-nil is_bid new side.head side.orders h), chained),
      )
  insert-walk side k (x ∷ path) room real (at, (there, (n, (e, rest)))) fresh apart le =
      let before = goes_before-ranks_ahead is_bid new side.head n x side.orders at there e in
      elim (Bool-cases (ranks_ahead is_bid new x.1)) [
        | inl ahead ↦
            let sorted : insert_sorted is_bid (slot, new) (x ∷ path) ≡ (slot, new) ∷ x ∷ path =
              rw (ahead) refl in
            let chained =
              front-Chain side (x ∷ path) room real (at, (there, (n, (e, rest)))) fresh in
            (
              front side,
              (
                insert-front side k (before ∙ ahead),
                subst (Chain (front side).orders slot) (sym sorted) chained,
              ),
            )
        | inr behind ↦
            let sorted : insert_sorted is_bid (slot, new) (x ∷ path)
                ≡ x ∷ insert_sorted is_bid (slot, new) path =
              rw (behind) refl in
            let (orders, (goes, ins)) =
              insert_after-Inserted is_bid new slot side.orders k n x path room real there e rest
                fresh apart (ground (arith, le)) in
            let from_head = ap (λ c. insert_after is_bid new slot k c side.orders) at ∙ goes in
            (
              record side { orders = orders },
              (
                insert-behind side k orders (before ∙ behind) from_head,
                subst (λ p. Chain orders side.head p) (sym sorted)
                    (subst (λ c. Chain orders c (x ∷ insert_sorted is_bid (slot, new) path))
                      (sym at) ins.chained),
              ),
            )
      ]

length-insert_sorted :
    (is_bid : Bool) (a : ℕ × Resting) (path : List (ℕ × Resting))
    → length (insert_sorted is_bid a path) ≡ suc (length path)
unfolding insert_sorted
length-insert_sorted is_bid a [] = refl
length-insert_sorted is_bid a (x ∷ path) = ground (arith, length-insert_sorted is_bid a path)

Fresh-insert_sorted :
    (is_bid : Bool) (j : ℕ) (a : ℕ × Resting) (path : List (ℕ × Resting))
    → j ≢ a.0
    → Fresh j path
    → Fresh j (insert_sorted is_bid a path)
unfolding Fresh insert_sorted
Fresh-insert_sorted is_bid j a [] other f = (other, tt)
Fresh-insert_sorted is_bid j a (x ∷ path) other f = elim (Bool-cases (ranks_ahead is_bid a.1 x.1)) [
  | inl e ↦ rw (e) (other, f)
  | inr e ↦ let rest = Fresh-insert_sorted is_bid j a path other f.1 in rw (e) (f.0, rest)
]

Distinct-insert_sorted :
    (is_bid : Bool) (a : ℕ × Resting) (path : List (ℕ × Resting))
    → Fresh a.0 path
    → Distinct path
    → Distinct (insert_sorted is_bid a path)
unfolding Fresh Distinct insert_sorted
Distinct-insert_sorted is_bid a [] f d = (tt, tt)
Distinct-insert_sorted is_bid a (x ∷ path) f d = elim (Bool-cases (ranks_ahead is_bid a.1 x.1)) [
  | inl e ↦ rw (e) (f, d)
  | inr e ↦
      let apart = Fresh-insert_sorted is_bid x.0 a path (λ h. f.0 (sym h)) d.0 in
      let rest = Distinct-insert_sorted is_bid a path f.1 d.1 in rw (e) (apart, rest)
]

-- A side whose links go once through those slots, in the order of priority.
pub record IsSide (is_bid : Bool) (side : BookSide) (path : List (ℕ × Resting)) : Type 0 where
  pub chained : Chain side.orders side.head path
  pub distinct : Distinct path
  pub ordered : Ordered is_bid path

-- What the program does to a side, and what the terminal reads of it. If the side links fewer than 64 slots,
-- each of them once and by priority, that is by price and then by arrival, and the new order arrives last,
-- into a slot of the array that is not linked: the program's walk of as many rounds as there are links
-- finds the order's place, the side again links each slot once and by priority, and `walkSide` reads all
-- its active orders, the new one before the first that it ranks ahead of.
pub walk_side-insert :
    (is_bid : Bool) (new : Resting) (slot k : ℕ) (side : BookSide) (path : List (ℕ × Resting))
    → IsSide is_bid side path
    → slot < length side.orders
    → slot ≢ nil
    → Fresh slot path
    → IsLatest new path
    → length path ≤ k
    → length path < 64
    → (side' : BookSide) × ((insert is_bid new slot k side ≡ some side')
        × (IsSide is_bid side' (insert_sorted is_bid (slot, new) path)
            × (walk_side side' ≡ actives (insert_sorted is_bid (slot, new) path))))
walk_side-insert is_bid new slot k side path h room real fresh late le short =
    let (side', (goes, chained)) =
      insert-walk is_bid new slot side k path room real h.chained fresh h.distinct le in
    let path' = insert_sorted is_bid (slot, new) path in
    let fits : length path' ≤ 64 =
      ground (arith, short, length-insert_sorted is_bid (slot, new) path) in
    (
      side',
      (
        goes,
        (
          record {
            chained = chained;
            distinct = Distinct-insert_sorted is_bid (slot, new) path fresh h.distinct;
            ordered = insert_sorted-Ordered is_bid (slot, new) path late h.ordered;
          },
          walk_side-actives side' path' chained fits,
        ),
      ),
    )
