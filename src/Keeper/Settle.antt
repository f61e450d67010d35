-- ===== src/Keeper/Settle.antt =====
-- `settle` of app/keeper.ts: one market's pass over the fills that its book has matched. Its job stands for the
-- function that it hands to `riskJob` (Keeper/Jobs). Log lines are left out.
pub mod Drained
mod Tests
use mathlib.Core.Path.{subst}
use mathlib.Core.List.{append_assoc, append-nil}
use anqa_core.Common.{
  ℕ, zero, suc, ◌+◌, ◌-◌, ◌≤◌, ◌<◌, ◌≡◌, ◌⊎◌, inl, inr, refl, sym, ap, ◌∙◌, Bool, true, false, not,
  ◌&&◌, Option, none, some, List, [], ◌∷◌, ◌++◌, length, take, drop, take-append-drop, min, ltb,
  ◌==◌, if◌then◌else◌, arith, Bool-cases, Option-cases,
}
use anqa_core.Common.Async.{Async, Result, ok, err, pure, ◌>>=◌, ◌>>◌, >>=-ok, >>=-err}

pub record Fill : Type 0 where
  pub taker : ℕ
  pub maker : ℕ
  pub lots : ℕ
  pub price_in_ticks : ℕ

-- The book's queue, oldest first, the fills that `settleFill` has taken off it, the ones reported
-- as filled, and how many awaits there were.
pub record Board : Type 0 where
  pub pending : List Fill
  pub consumed : List Fill
  pub prints : ℕ
  pub awaits : ℕ

-- What happens at an await: what others do to the queue before it, whether it throws, whether a
-- transaction takes effect, and whether its log says that the fill was settled.
pub record Rollup : Type 0 where
  pub others : ℕ → List Fill → List Fill
  pub throws : ℕ → Bool
  pub lands : ℕ → Bool
  pub filled : ℕ → Bool

-- Others match new fills; none but the keeper takes one off. A transaction that is confirmed has taken effect.
pub record IsOrderly (o : Rollup) : Type 0 where
  pub appends : (k : ℕ) (fills : List Fill) → (new : List Fill) × (o.others k fills ≡ fills ++ new)
  pub confirmed : (k : ℕ) → o.throws k ≡ false → o.lands k ≡ true

abbrev pub rest_of : List Fill → List Fill
rest_of [] = []
rest_of (_ ∷ fills) = fills

abbrev pub popped : Bool → Fill → Board → Board
popped false head s = s
popped true head s = record s { pending = rest_of s.pending; consumed = s.consumed ++ (head ∷ []) }

module _ (o : Rollup) where
  abbrev pub passed : Board → Board
  passed s = record s { pending = o.others s.awaits s.pending; awaits = s.awaits + 1 }

  -- `book.fetch`
  unfoldable pub fetch_book : Async Board (Unit {0}) (List Fill)
  fetch_book s = if o.throws s.awaits then (err tt, passed s) else (ok (passed s).pending, passed s)

  -- `crankUntilCurrent(m, 12)`, of which only the time that it takes matters to the queue.
  unfoldable pub crank_current : Async Board (Unit {0}) (Unit {0})
  crank_current s = if o.throws s.awaits then (err tt, passed s) else (ok tt, passed s)

  -- `settleFill`, for the head that was read.
  unfoldable pub settle_fill : Fill → Async Board (Unit {0}) (Unit {0})
  settle_fill head s =
      let end = popped (o.lands s.awaits) head (passed s) in
      if o.throws s.awaits then (err tt, end) else (ok tt, end)

  -- `getTransaction`, and the reading of its log.
  unfoldable pub read_outcome : Async Board (Unit {0}) (Unit {0})
  read_outcome s = if o.throws s.awaits then (err tt, passed s) else (
    ok tt,
    record (passed s) { prints = if o.filled s.awaits then s.prints + 1 else s.prints },
  )

  abbrev pub settle_head : List Fill → Async Board (Unit {0}) Bool
  settle_head [] = pure false
  settle_head (head ∷ _) = settle_fill head >> read_outcome >> pure true

  -- The loop of the job, with `k` rounds left.
  unfoldable pub settle_rounds : ℕ → Async Board (Unit {0}) (Unit {0})
  settle_rounds zero = pure tt
  settle_rounds (suc k) =
      (fetch_book >>= settle_head) >>= λ more. if more then settle_rounds k else pure tt

  abbrev pub settle_shown : List Fill → Async Board (Unit {0}) (Unit {0})
  settle_shown fills =
      if length fills == 0 then pure tt else crank_current >> settle_rounds (min (length fills) 4)

  unfoldable pub settle_market : Async Board (Unit {0}) (Unit {0})
  settle_market = fetch_book >>= settle_shown

-- What a pass has taken off the queue, where it was to take `fills`: a part from its front, all of them
-- unless it throws.
pub record IsDrained (fills : List Fill) (s : Board) (end : Result (Unit {0}) (Unit {0}) × Board)
    : Type 0 where
  pub taken : List Fill
  pub left : List Fill
  pub in_order : fills ≡ taken ++ left
  pub consumed_taken : end.1.consumed ≡ s.consumed ++ taken
  pub complete : end.0 ≡ ok tt → left ≡ []
  pub printed : (s.prints ≤ end.1.prints) × (end.1.prints ≤ s.prints + length taken)
