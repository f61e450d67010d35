-- ===== src/Book/Chain.antt =====
-- A side of the book as the orders that it links, best first.

use anqa_core.Common.{
  ℕ, zero, suc, ◌≤◌, ◌≡◌, ◌≢◌, refl, ap, ◌∙◌, false, some, List, [], ◌∷◌, ◌==◌, get_elem?, length,
  if◌then◌else◌, arith,
}
use anqa_core.Book.{Resting, RestingOrder, BookSide, nil, walk_from, walk_side}

-- From slot `i` on the links are those slots and orders, and then they end.
unfoldable pub Chain : List RestingOrder → ℕ → List (ℕ × Resting) → Type 0
Chain orders i [] = i ≡ nil
Chain orders i (x ∷ path) =
    (i ≡ x.0)
    × ((x.0 ≢ nil)
        × ((n : ℕ) × ((get_elem? orders x.0 ≡ some (record { order = x.1; next = n }))
              × Chain orders n path)))

-- The orders that are active.
unfoldable pub actives : List (ℕ × Resting) → List Resting
actives [] = []
actives (x ∷ path) = let rest = actives path in if x.1.active == 1 then x.1 ∷ rest else rest

walk_from-actives :
    (orders : List RestingOrder) (k i : ℕ) (path : List (ℕ × Resting))
    → Chain orders i path
    → length path ≤ k
    → walk_from orders k i ≡ actives path
unfolding walk_from actives Chain
walk_from-actives orders zero i [] h le = refl
walk_from-actives orders zero i (x ∷ path) h le = ground (arith, le)
walk_from-actives orders (suc k) i [] h le = ground (arith, h)
walk_from-actives orders (suc k) i (x ∷ path) (at, (there, (n, (e, rest)))) le =
    let more = walk_from-actives orders k n path rest (ground (arith, le)) in
    let open_link : (i == nil) ≡ false = ground (arith, at, there) in
    let found : get_elem? orders i ≡ some (record { order = x.1; next = n }) =
      ap (get_elem? orders) at ∙ e in
    let same : (if x.1.active == 1 then x.1 ∷ walk_from orders k n else walk_from orders k n)
        ≡ actives (x ∷ path) =
      ap (λ xs. if x.1.active == 1 then x.1 ∷ xs else xs) more in
    rw (open_link, found) same

-- The walk reads the active orders of a side, best first, where it links at most 64 slots.
pub walk_side-actives :
    (side : BookSide) (path : List (ℕ × Resting))
    → Chain side.orders side.head path
    → length path ≤ 64
    → walk_side side ≡ actives path
unfolding walk_side
walk_side-actives side path h le = walk_from-actives side.orders 64 side.head path h le
