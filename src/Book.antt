-- ===== src/Book.antt =====
-- web/lib/anqa.ts: `walkSide`, which reads a side of the book as the program keeps it: a linked list in an
-- array of slots (`BookSide` of programs/anqa-core/src/state/book.rs, with its `insert`).
pub mod Chain
pub mod Insert
pub mod Order
pub mod Priority
mod Tests
use anqa_core.Common.{
  ℕ, zero, suc, ◌+◌, Bool, true, false, not, ◌&&◌, ◌||◌, Option, none, some, List, [], ◌∷◌, ltb,
  ◌==◌, get_elem?, set, if◌then◌else◌,
}

-- An order but for its link; `trader` and what only the program reads are left out.
pub record Resting : Type 0 where
  pub client_order_id : ℕ
  pub price_in_ticks : ℕ
  pub base_lots : ℕ
  pub seq : ℕ
  pub active : ℕ
  pub hidden : ℕ

pub record RestingOrder : Type 0 where
  pub order : Resting
  pub next : ℕ

pub record BookSide : Type 0 where
  pub orders : List RestingOrder
  pub head : ℕ

abbrev pub nil : ℕ
nil = 65_535

-- The loop, of which `k` rounds are left.
unfoldable pub walk_from : List RestingOrder → ℕ → ℕ → List Resting
walk_from orders zero cursor = []
walk_from orders (suc k) cursor = if cursor == nil then [] else elim (get_elem? orders cursor) [
  | none ↦ []
  | some o ↦
      let rest = walk_from orders k o.next in if o.order.active == 1 then o.order ∷ rest else rest
]

unfoldable pub walk_side : BookSide → List Resting
unfolding walk_from
walk_side side = walk_from side.orders 64 side.head

-- Of the program: an order (price, seq) ranks ahead of another.
abbrev pub ranks_ahead : Bool → Resting → Resting → Bool
ranks_ahead is_bid a b =
    (if is_bid
      then ltb b.price_in_ticks a.price_in_ticks
      else ltb a.price_in_ticks b.price_in_ticks)
    || ((a.price_in_ticks == b.price_in_ticks) && ltb a.seq b.seq)

-- Whether the new order goes before the one in `slot`: the list ends there, or it ranks ahead.
unfoldable pub goes_before : Bool → Resting → ℕ → List RestingOrder → Bool
goes_before is_bid new slot orders =
    (slot == nil)
    || elim (get_elem? orders slot) [ none ↦ false | some o ↦ ranks_ahead is_bid new o.order ]

-- The loop of `insert` after `cursor`, of which `k` rounds are left; a slot that is not there is a panic.
unfoldable pub insert_after :
    Bool → Resting → ℕ → ℕ → ℕ → List RestingOrder → Option (List RestingOrder)
unfolding goes_before
insert_after is_bid new slot zero cursor orders = none
insert_after is_bid new slot (suc k) cursor orders = elim (get_elem? orders cursor) [
  | none ↦ none
  | some o ↦
      let later = insert_after is_bid new slot k o.next orders in
      if goes_before is_bid new o.next orders
      then some (
          set (set orders slot (record { order = new; next = o.next })) cursor
            (record o { next = slot }))
      else later
]

-- `insert`, into the slot that `alloc_slot` has taken off the free list; the slot is first written without
-- a link, which nothing reads.
unfoldable pub insert : Bool → Resting → ℕ → ℕ → BookSide → Option BookSide
unfolding insert_after
insert is_bid new slot k side =
    let later = insert_after is_bid new slot k side.head side.orders in
    if goes_before is_bid new side.head side.orders
    then some (record {
      orders = set side.orders slot (record { order = new; next = side.head });
      head = slot;
    })
    else elim later [ none ↦ none | some orders ↦ some (record side { orders = orders }) ]
