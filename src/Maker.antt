-- ===== src/Maker.antt =====
-- app/maker-daemon.ts: the resident market maker. Here are its rungs and the ladder that it wants;
-- Position is its reading of its own inventory, Send its retries, Cycle what it does to a book.
pub mod Position
pub mod Ladder
pub mod Send
pub mod Cycle
pub mod Tests
use anqa_core.Common.{
  ℕ, zero, suc, ◌+◌, ◌-◌, ◌*◌, ◌^◌, ◌≤◌, ◌<◌, ◌≡◌, Bool, true, false, not, ◌&&◌, ◌||◌, Option, none,
  some, List, [], ◌∷◌, ltb, leb, ◌==◌, if◌then◌else◌, min, max,
}
use anqa_core.Common.Int.{ℤ, pos, negsuc, pos_part, neg_part, ◌+ℤ◌, ◌-ℤ◌, ◌*ℤ◌, ◌≤ℤ◌, leb_ℤ}

-- A price is an integer: nothing in the daemon keeps it above zero.
pub record Rung : Type 0 where
  pub coid : ℕ
  pub price : ℤ
  pub lots : ℕ

-- A `Map` from level to rung.
abbrev pub Rungs : Type 0
Rungs = List (ℕ × Rung)

abbrev pub bid_base : ℕ
bid_base = 268_435_456

abbrev pub ask_base : ℕ
ask_base = 536_870_912

-- The quoting parameters; `size i` is `Math.round(BASE_LOTS * Math.pow(SIZE_DECAY, i - 1))`.
pub record Quoting : Type 0 where
  pub levels : ℕ
  pub step_bps : ℕ
  pub skew_bps : ℕ
  pub max_position : ℕ
  pub reprice_bps : ℕ
  pub size : ℕ → ℕ

-- `Math.round` of a float whose exact value is a quotient. Floats need not be exact: what is relied
-- on is that a whole quotient comes out whole, and that a larger one never comes out smaller.
abbrev pub Rounder : Type 0
Rounder = ℤ → ℕ → ℤ

pub record IsRounding (round : Rounder) : Type 0 where
  pub whole : (k d : ℕ) → 0 < d → round (pos (k * d)) d ≡ pos k
  pub rising : (a b : ℤ) (d : ℕ) → 0 < d → a ≤ℤ b → round a d ≤ℤ round b d

-- `Math.max(-1, Math.min(1, position / MAX_POSITION_LOTS))`, times the cap.
abbrev pub inventory : Quoting → ℤ → ℤ
inventory q (pos n) = pos (min n q.max_position)
inventory q (negsuc n) = if ltb n q.max_position then negsuc n else pos 0 -ℤ pos q.max_position

-- `bidScale` and `askScale`, times the cap.
abbrev pub bid_room : Quoting → ℤ → ℕ
bid_room q position = q.max_position - pos_part (inventory q position)

abbrev pub ask_room : Quoting → ℤ → ℕ
ask_room q position = q.max_position - neg_part (inventory q position)

module _ (round : Rounder) (q : Quoting) where
  unfoldable pub mid_of : ℕ → ℤ → ℤ
  unfolding ◌-ℤ◌ ◌*ℤ◌
  mid_of mark_ticks position =
      pos mark_ticks
      -ℤ round (pos (mark_ticks * q.skew_bps) *ℤ inventory q position) (10_000 * q.max_position)

  unfoldable pub offset : ℕ → ℕ → ℕ
  offset mark_ticks i = max 1 (pos_part (round (pos (mark_ticks * q.step_bps * i)) 10_000))

  unfoldable pub scaled_lots : ℕ → ℕ → ℕ
  scaled_lots room i = max 1 (pos_part (round (pos (max 1 (q.size i) * room)) q.max_position))

  -- One round of the loop, for each side; `none` is a rung that is not set.
  unfoldable pub bid_rung : ℕ → ℤ → ℕ → Option Rung
  unfolding mid_of offset scaled_lots
  bid_rung mark_ticks position i =
      if leb_ℤ (pos q.max_position) position || (bid_room q position == 0)
      then none
      else some (record {
        coid = bid_base + i;
        price = mid_of mark_ticks position -ℤ pos (offset mark_ticks i);
        lots = scaled_lots (bid_room q position) i;
      })

  unfoldable pub ask_rung : ℕ → ℤ → ℕ → Option Rung
  unfolding mid_of offset scaled_lots
  ask_rung mark_ticks position i =
      if leb_ℤ position (pos 0 -ℤ pos q.max_position) || (ask_room q position == 0)
      then none
      else some (record {
        coid = ask_base + i;
        price = mid_of mark_ticks position +ℤ pos (offset mark_ticks i);
        lots = scaled_lots (ask_room q position) i;
      })

abbrev pub enter : ℕ → Option Rung → Rungs → Rungs
enter i none rest = rest
enter i (some r) rest = (i, r) ∷ rest

-- The loop over the levels, `k` of them, from `i` on.
unfoldable pub rungs_from : (ℕ → Option Rung) → ℕ → ℕ → Rungs
rungs_from rung zero i = []
rungs_from rung (suc k) i = enter i (rung i) (rungs_from rung k (suc i))

module _ (round : Rounder) (q : Quoting) where
  unfoldable pub desired_bids : ℕ → ℤ → Rungs
  unfolding bid_rung rungs_from
  desired_bids mark_ticks position = rungs_from (bid_rung round q mark_ticks position) q.levels 1

  unfoldable pub desired_asks : ℕ → ℤ → Rungs
  unfolding ask_rung rungs_from
  desired_asks mark_ticks position = rungs_from (ask_rung round q mark_ticks position) q.levels 1
