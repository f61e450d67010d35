-- ===== src/Keeper/Settle/Tests.antt =====
-- A pass over a book with six fills.
use mathlib.Core.List.{append-nil}
use anqa_core.Common.{
  ℕ, inl, inr, refl, sym, take, ◌≡◌, Bool, true, false, List, [], ◌∷◌, ◌++◌, ◌==◌, if◌then◌else◌,
  Bool-cases,
}
use anqa_core.Keeper.Settle.{
  Fill, Board, Rollup, IsOrderly, IsDrained, fetch_book, crank_current, settle_fill, read_outcome,
  settle_rounds, settle_market,
}
use anqa_core.Keeper.Settle.Drained.{settle_market-IsDrained}

-- Six fills wait; a seventh is matched while the first one is settled, whose outcome is a refusal.
abbrev a_fill : ℕ → Fill
a_fill n = record { taker = n; maker = 9; lots = 5; price_in_ticks = 990 }

abbrev six_pending : Board
six_pending = record {
  pending = a_fill 1 ∷ a_fill 2 ∷ a_fill 3 ∷ a_fill 4 ∷ a_fill 5 ∷ a_fill 6 ∷ [];
  consumed = [];
  prints = 0;
  awaits = 0;
}

abbrev matched : ℕ → List Fill → List Fill
matched k fills = if k == 3 then fills ++ (a_fill 7 ∷ []) else fills

-- The network drops the call in which the third fill is taken off: it lands, and throws.
abbrev dropping : Bool → Rollup
dropping drops = record {
  others = matched;
  throws = λ k. if drops then k == 9 else false;
  lands = λ _. true;
  filled = λ k. if k == 4 then false else true;
}

matched-appends : (k : ℕ) (fills : List Fill) → (new : List Fill) × (matched k fills ≡ fills ++ new)
matched-appends k fills = elim (Bool-cases (k == 3)) [
  | inl e ↦ (a_fill 7 ∷ [], rw e refl)
  | inr e ↦ ([], rw e (sym (append-nil fills)))
]

dropping-IsOrderly : (drops : Bool) → IsOrderly (dropping drops)
dropping-IsOrderly drops = record { appends = matched-appends; confirmed = λ k e. refl }

dropped-three :
    ((settle_market (dropping true) six_pending).1.consumed ≡ a_fill 1 ∷ a_fill 2 ∷ a_fill 3 ∷ [])
    × ((settle_market (dropping true) six_pending).1.prints ≡ 1)
unfolding settle_market fetch_book crank_current settle_rounds settle_fill read_outcome
dropped-three = (refl, refl)

drained-four :
    ((settle_market (dropping false) six_pending).1.consumed
      ≡ a_fill 1 ∷ a_fill 2 ∷ a_fill 3 ∷ a_fill 4 ∷ [])
    × ((settle_market (dropping false) six_pending).1.prints ≡ 3)
unfolding settle_market fetch_book crank_current settle_rounds settle_fill read_outcome
drained-four = (refl, refl)

settle_market-IsDrained_example :
    IsDrained (take 4 six_pending.pending) six_pending (settle_market (dropping true) six_pending)
settle_market-IsDrained_example =
    settle_market-IsDrained (dropping true) (dropping-IsOrderly true) six_pending
