-- ===== src/Ticket/Stops/Arming.antt =====
-- How many stops are armed.
use anqa_core.Common.{
  ℕ, ◌+◌, ◌<◌, ◌≤◌, ◌≡◌, ◌⊎◌, Bool, true, false, not, List, [], ◌∷◌, ◌++◌, if◌then◌else◌,
}
use anqa_core.Common.Async.{Result, ok, err}
use anqa_core.Common.Ratio.{is_zero}
use anqa_core.Maker.{Rounder}
use anqa_core.Actions.Trading.{TriggerArgs}
use anqa_core.Ticket.{Ticket, Quote}
use anqa_core.Ticket.Stops.{
  Kind, take_profit, stop_loss, Net, not_settled_yet, Desk, Thrown, trigger_at, told_armed,
}

abbrev is_done : Result Thrown Bool → Bool
is_done (ok b) = b
is_done (err e) = false

-- How many triggers of a kind were placed.
unfoldable pub placed_of : Kind → List (Kind × TriggerArgs) → ℕ
placed_of k [] = 0
placed_of take_profit ((take_profit, a) ∷ xs) = 1 + placed_of take_profit xs
placed_of take_profit ((stop_loss, a) ∷ xs) = placed_of take_profit xs
placed_of stop_loss ((take_profit, a) ∷ xs) = placed_of stop_loss xs
placed_of stop_loss ((stop_loss, a) ∷ xs) = 1 + placed_of stop_loss xs

module _ (round : Rounder) (t : Ticket) (q : Quote) where
  -- What the ticket asks for, the last one first.
  unfoldable pub wanted : ℕ → List (Kind × TriggerArgs)
  wanted id =
      (if is_zero t.stop_loss
        then []
        else (stop_loss, trigger_at round t q (id + 1) (not t.is_long) t.stop_loss) ∷ [])
      ++ (if is_zero t.take_profit
          then []
          else (take_profit, trigger_at round t q id t.is_long t.take_profit) ∷ [])

-- How a wait of `k` rounds ends: `repeats` is in how many of them the take profit was placed, and the stop
-- loss then was not.
pub record Arms (t : Ticket) (k : ℕ) (s end : Desk) : Type 0 where
  pub repeats : ℕ
  pub few : repeats ≤ k
  pub both : 0 < repeats → (is_zero t.take_profit ≡ false) × (is_zero t.stop_loss ≡ false)
  pub result :
      ((end.notes ≡ not_settled_yet ∷ s.notes)
        × ((placed_of take_profit end.placed ≡ repeats + placed_of take_profit s.placed)
            × (placed_of stop_loss end.placed ≡ placed_of stop_loss s.placed)))
      ⊎ ((end.notes ≡ told_armed t s.notes)
          × ((repeats < k)
              × ((placed_of take_profit end.placed
                    ≡ repeats
                      + ((if is_zero t.take_profit then 0 else 1) + placed_of take_profit s.placed))
                  × (placed_of stop_loss end.placed
                      ≡ (if is_zero t.stop_loss then 0 else 1) + placed_of stop_loss s.placed))))

module _ (round : Rounder) (net : Net) (t : Ticket) (q : Quote)
    (nothing_landed : (kind : Kind) (n : ℕ) → net.lands kind n ≡ false) where
  BothCases : ℕ → Desk → Result Thrown Bool × Desk → Type 0
  BothCases id s (r, s') =
      ((is_done r ≡ false) × (s'.placed ≡ s.placed))
      ⊎ (((is_done r ≡ false)
            × ((is_zero t.stop_loss ≡ false)
                × ((is_zero t.take_profit ≡ false)
                    × (s'.placed
                        ≡ (take_profit, trigger_at round t q id t.is_long t.take_profit)
                          ∷ s.placed))))
          ⊎ ((is_done r ≡ true) × (s'.placed ≡ wanted round t q id ++ s.placed)))
