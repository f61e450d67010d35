-- ===== src/Ticket/Stops.antt =====
-- What the ticket does once its order is sent: `armStops` and `confirmPositionChange` of
-- web/components/TradeForm.tsx. What the network answers and the clock are streams, indexed by the number
-- of awaits before; a program, an owner and the accounts of the session are there.
pub mod Arming
pub mod Once
use anqa_core.Common.{
  ℕ, zero, suc, ◌+◌, ◌*◌, ◌%◌, Bool, true, false, not, ◌&&◌, ◌||◌, Option, none, some, List, [],
  ◌∷◌, ltb, ◌==◌, if◌then◌else◌,
}
use anqa_core.Common.Async.{Async, Result, ok, err, pure, throw, ◌>>=◌, ◌>>◌}
use anqa_core.Common.Int.{ℤ, pos, pos_part, ◌-ℤ◌}
use anqa_core.Common.Ratio.{Ratio, ◌*ᵣ◌, is_zero}
use anqa_core.Maker.{Rounder}
use anqa_core.Actions.Trading.{Direction, above, below, TriggerArgs}
use anqa_core.Ticket.{Ticket, Quote}
use anqa_core.Ticket.Order.{usd_to_ticks, atoms_of}

pub data Kind : Type 0 where
  take_profit stop_loss : Kind

-- `position` is none where the read throws, else the side of the position in the asset, if there is one.
-- `rejects` says that a call of `placeTrigger` throws, `lands` that one that throws has landed all the same.
pub record Net : Type 0 where
  pub position : ℕ → Option (Option Bool)
  pub now : ℕ → ℕ
  pub rejects : Kind → ℕ → Bool
  pub lands : Kind → ℕ → Bool

pub data Note : Type 0 where
  armed : Note
  not_settled_yet : Note

-- The number of awaits, the triggers that were placed and what was told the trader, last ones first.
pub record Desk : Type 0 where
  pub awaits : ℕ
  pub placed : List (Kind × TriggerArgs)
  pub notes : List Note

-- `if (armed.length) onDone(…)`: a stop is in the list if it was asked for.
abbrev pub told_armed : Ticket → List Note → List Note
told_armed t notes = if is_zero t.take_profit && is_zero t.stop_loss then notes else armed ∷ notes

-- A throw, which the loop swallows.
pub data Thrown : Type 0 where
  thrown : Thrown

abbrev pub same_side : Bool → Bool → Bool
same_side true b = b
same_side false b = not b

module _ (round : Rounder) (t : Ticket) (q : Quote) where
  -- The trigger at `price`: the bound of its order is three per cent past it.
  unfoldable pub trigger_at : ℕ → Bool → Ratio → TriggerArgs
  unfolding usd_to_ticks
  trigger_at id is_above price = record {
    trigger_id = id;
    trigger_price = atoms_of round (price *ᵣ q.lot_fraction);
    direction = if is_above then above else below;
    limit_price_in_ticks =
        usd_to_ticks round
          ((record { num = if t.is_long then 97 else 103; den = 100 } *ᵣ price) *ᵣ q.lot_fraction)
          q.tick;
    max_base_lots = 0;
  }

module _ (round : Rounder) (net : Net) (t : Ticket) (q : Quote) where
  abbrev pub place : Kind → TriggerArgs → Async Desk Thrown (Unit {0})
  place kind args s =
      let there = record s { awaits = s.awaits + 1; placed = (kind, args) ∷ s.placed } in
      if net.rejects kind s.awaits
      then (
        err thrown,
        if net.lands kind s.awaits then there else record s { awaits = s.awaits + 1 },
      )
      else (ok tt, there)

  abbrev pub place_wanted : Kind → Bool → ℕ → Ratio → Async Desk Thrown (Unit {0})
  place_wanted kind is_above id price =
      if is_zero price then pure tt else place kind (trigger_at round t q id is_above price)

  -- Both triggers, once the position is there.
  unfoldable pub place_both : ℕ → Async Desk Thrown Bool
  unfolding trigger_at
  place_both id = do
    place_wanted take_profit t.is_long id t.take_profit
    place_wanted stop_loss (not t.is_long) (id + 1) t.stop_loss
    pure true

  -- A round of the loop, which ends it if true.
  unfoldable pub arm_round : Async Desk Thrown Bool
  unfolding place_both
  arm_round s =
      let after = record s { awaits = s.awaits + 1 } in
      elim (net.position s.awaits) [
        | none ↦ (err thrown, after)
        | some none ↦ (ok false, after)
        | some (some is_long) ↦
            if same_side t.is_long is_long
            then place_both (net.now s.awaits % 1_000_000_000) after
            else (ok false, after)
      ]

  abbrev pub tell : Note → Desk → Desk
  tell n s = record s { notes = n ∷ s.notes }

  abbrev pub tell_armed : Desk → Desk
  tell_armed s = record s { notes = told_armed t s.notes }

  -- `armStops`, of which `k` rounds are left; it begins with 12.
  unfoldable pub arm_stops : ℕ → Desk → Desk
  unfolding arm_round
  arm_stops zero s = tell not_settled_yet s
  arm_stops (suc k) s =
      let (r, s') = arm_round s in
      let more = arm_stops k s' in
      elim r [ ok true ↦ tell_armed s' | ok false ↦ more | err e ↦ more ]

pub data Resolution : Type 0 where
  position_open : Resolution
  did_not_settle : Resolution

-- `confirmPositionChange`, of which `k` reads are left, from the `n`th on; it begins with 60. A read is
-- none where it failed; lots are signed, 0 without a position.
unfoldable pub confirm_position_change : (ℕ → Option ℤ) → ℤ → ℕ → ℕ → Resolution
confirm_position_change lots before zero n = did_not_settle
confirm_position_change lots before (suc k) n =
    let more = confirm_position_change lots before k (suc n) in
    elim (lots n) [
      | none ↦ more
      | some after ↦
          if (pos_part (after -ℤ before) == 0) && (pos_part (before -ℤ after) == 0)
          then more
          else position_open
    ]
