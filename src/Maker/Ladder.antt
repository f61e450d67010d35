-- ===== src/Maker/Ladder.antt =====
-- `desiredLadder` of app/maker-daemon.ts: where the ladder stands, how large its rungs are, which side of it
-- is missing, and how it leans against the inventory.
use native.Mathlib.Nat.{mul-le-mul_left}
use anqa_core.Common.{
  ℕ, suc, ◌+◌, ◌*◌, ◌≤◌, ◌<◌, ◌≡◌, ◌↔◌, ◌≢◌, ap, ◌∙◌, not, ◌&&◌, none, some, ltb, if◌then◌else◌,
  max, arith,
}
use anqa_core.Common.Int.{ℤ, pos, negsuc, ◌+ℤ◌, ◌-ℤ◌, ◌*ℤ◌, ◌≤ℤ◌, ◌<ℤ◌, +ℤ_parts, -ℤ_parts}
use anqa_core.Common.Dict.{lookup}
use anqa_core.Maker.{
  Rung, Quoting, Rounder, IsRounding, inventory, bid_room, ask_room, mid_of, offset, scaled_lots,
  bid_rung, ask_rung, desired_bids, desired_asks,
}
use anqa_core.Maker.Cycle.Steps.{lookup-rungs_from}

bid_room-full :
    (q : Quoting) (position : ℤ)
    → 0 < q.max_position
    → (bid_room q position ≡ 0) ↔ (pos q.max_position ≤ℤ position)
unfolding ◌-ℤ◌
bid_room-full q (pos n) h = ground arith
bid_room-full q (negsuc n) h = ground arith

ask_room-full :
    (q : Quoting) (position : ℤ)
    → 0 < q.max_position
    → (ask_room q position ≡ 0) ↔ (position ≤ℤ (pos 0 -ℤ pos q.max_position))
unfolding ◌-ℤ◌
ask_room-full q (pos n) h = ground arith
ask_room-full q (negsuc n) h = ground arith

inventory-mono : (q : Quoting) (a b : ℤ) → a ≤ℤ b → inventory q a ≤ℤ inventory q b
unfolding ◌-ℤ◌
inventory-mono q (pos a) (pos b) h = ground arith
inventory-mono q (pos a) (negsuc b) h = absurd (omega arith)
inventory-mono q (negsuc a) (pos b) h = ground arith
inventory-mono q (negsuc a) (negsuc b) h = ground arith

scale_mono : (n : ℕ) (a b : ℤ) → a ≤ℤ b → (pos n *ℤ a) ≤ℤ (pos n *ℤ b)
unfolding ◌*ℤ◌
scale_mono n (pos a) (pos b) h = ground (arith, mul-le-mul_left {m = a} {n = b} n (omega arith))
scale_mono n (pos a) (negsuc b) h = absurd (omega arith)
scale_mono n (negsuc a) (pos b) h = ground arith
scale_mono n (negsuc a) (negsuc b) h =
    ground (arith, mul-le-mul_left {m = suc b} {n = suc a} n (omega arith))

module _ (round : Rounder) (q : Quoting) where
  scaled_lots-bounds :
      (room i : ℕ)
      → IsRounding round
      → 0 < q.max_position
      → room ≤ q.max_position
      → (1 ≤ scaled_lots round q room i) × (scaled_lots round q room i ≤ max 1 (q.size i))
  unfolding scaled_lots
  scaled_lots-bounds room i h some_cap low =
      let s = max 1 (q.size i) in
      let full = h.whole s q.max_position some_cap in
      let grows =
        h.rising (pos (s * room)) (pos (s * q.max_position)) q.max_position some_cap
          (ground (arith, mul-le-mul_left {m = room} {n = q.max_position} s low)) in
      ground (arith, full, grows)

  bid_rung-eq :
      (mark_ticks i : ℕ) (position : ℤ) (r : Rung)
      → bid_rung round q mark_ticks position i ≡ some r
      → (r.price ≡ mid_of round q mark_ticks position -ℤ pos (offset round q mark_ticks i))
        × (r.lots ≡ scaled_lots round q (bid_room q position) i)
  unfolding bid_rung
  bid_rung-eq mark_ticks i position r e = ground (arith, e)

  ask_rung-eq :
      (mark_ticks i : ℕ) (position : ℤ) (r : Rung)
      → ask_rung round q mark_ticks position i ≡ some r
      → (r.price ≡ mid_of round q mark_ticks position +ℤ pos (offset round q mark_ticks i))
        × (r.lots ≡ scaled_lots round q (ask_room q position) i)
  unfolding ask_rung
  ask_rung-eq mark_ticks i position r e = ground (arith, e)

  bid_rung-none :
      (mark_ticks i : ℕ) (position : ℤ)
      → 0 < q.max_position
      → (bid_rung round q mark_ticks position i ≢ none) ↔ (position <ℤ pos q.max_position)
  unfolding bid_rung
  bid_rung-none mark_ticks i position h = ground (arith, bid_room-full q position h)

  ask_rung-none :
      (mark_ticks i : ℕ) (position : ℤ)
      → 0 < q.max_position
      → (ask_rung round q mark_ticks position i ≢ none)
        ↔ ((pos 0 -ℤ pos q.max_position) <ℤ position)
  unfolding ask_rung
  ask_rung-none mark_ticks i position h = ground (arith, ask_room-full q position h)

-- A ladder around a mark, at a position.
pub record IsLadder (round : Rounder) (q : Quoting) (mark_ticks : ℕ) (position : ℤ) : Type 0 where
  pub bids_there :
      (i : ℕ)
      → (lookup i (desired_bids round q mark_ticks position) ≢ none)
        ↔ ((0 < i) × (i ≤ q.levels) × (position <ℤ pos q.max_position))
  pub asks_there :
      (i : ℕ)
      → (lookup i (desired_asks round q mark_ticks position) ≢ none)
        ↔ ((0 < i) × (i ≤ q.levels) × ((pos 0 -ℤ pos q.max_position) <ℤ position))
  pub bid_lots :
      (i : ℕ) (b : Rung)
      → lookup i (desired_bids round q mark_ticks position) ≡ some b
      → (1 ≤ b.lots) × (b.lots ≤ max 1 (q.size i))
  pub ask_lots :
      (i : ℕ) (a : Rung)
      → lookup i (desired_asks round q mark_ticks position) ≡ some a
      → (1 ≤ a.lots) × (a.lots ≤ max 1 (q.size i))
  pub uncrossed :
      (i j : ℕ) (b a : Rung)
      → lookup i (desired_bids round q mark_ticks position) ≡ some b
      → lookup j (desired_asks round q mark_ticks position) ≡ some a
      → (b.price <ℤ mid_of round q mark_ticks position)
        × (mid_of round q mark_ticks position <ℤ a.price)

module _ (round : Rounder) (q : Quoting) (mark_ticks : ℕ) (position : ℤ) where
  bids_at :
      (i : ℕ)
      → lookup i (desired_bids round q mark_ticks position) ≡ (
          if not (ltb i 1) && ltb i (1 + q.levels)
          then bid_rung round q mark_ticks position i
          else none)
  unfolding desired_bids
  bids_at i = lookup-rungs_from (bid_rung round q mark_ticks position) q.levels 1 i

  asks_at :
      (i : ℕ)
      → lookup i (desired_asks round q mark_ticks position) ≡ (
          if not (ltb i 1) && ltb i (1 + q.levels)
          then ask_rung round q mark_ticks position i
          else none)
  unfolding desired_asks
  asks_at i = lookup-rungs_from (ask_rung round q mark_ticks position) q.levels 1 i

  bid_found :
      (i : ℕ) (b : Rung)
      → lookup i (desired_bids round q mark_ticks position) ≡ some b
      → bid_rung round q mark_ticks position i ≡ some b
  bid_found i b e = ground (arith, bids_at i, e)

  ask_found :
      (i : ℕ) (a : Rung)
      → lookup i (desired_asks round q mark_ticks position) ≡ some a
      → ask_rung round q mark_ticks position i ≡ some a
  ask_found i a e = ground (arith, asks_at i, e)

  offset-pos : (i : ℕ) → 0 < offset round q mark_ticks i
  unfolding offset
  offset-pos i = ground arith

  -- If the rounding is one and the position cap is positive: the bids are missing exactly when the position
  -- has reached the cap and the asks exactly when it has reached its negative, otherwise the
  -- levels from 1 to `levels` are there and no other; every rung has at least one lot and at most the
  -- size of its level, or one where that is 0; and every bid is below the mid, every ask above it.
  pub desired-IsLadder :
      IsRounding round → 0 < q.max_position → IsLadder round q mark_ticks position
  desired-IsLadder h some_cap = record {
    bids_there =
        λ i. ground (arith, bids_at i, bid_rung-none round q mark_ticks i position some_cap);
    asks_there =
        λ i. ground (arith, asks_at i, ask_rung-none round q mark_ticks i position some_cap);
    bid_lots = λ i b e.
        let r = bid_rung-eq round q mark_ticks i position b (bid_found i b e) in
        ground
          (arith, r, scaled_lots-bounds round q (bid_room q position) i h some_cap (omega arith));
    ask_lots = λ i a e.
        let r = ask_rung-eq round q mark_ticks i position a (ask_found i a e) in
        ground
          (arith, r, scaled_lots-bounds round q (ask_room q position) i h some_cap (omega arith));
    uncrossed = λ i j b a e f.
        let below = bid_rung-eq round q mark_ticks i position b (bid_found i b e) in
        let above = ask_rung-eq round q mark_ticks j position a (ask_found j a f) in
        ground (
          arith,
          below.0,
          above.0,
          offset-pos i,
          offset-pos j,
          -ℤ_parts (mid_of round q mark_ticks position) (pos (offset round q mark_ticks i)),
          +ℤ_parts (mid_of round q mark_ticks position) (pos (offset round q mark_ticks j)),
        );
  }

sub_antitone : (n a b : ℤ) → a ≤ℤ b → (n -ℤ b) ≤ℤ (n -ℤ a)
sub_antitone n a b h = omega (arith, -ℤ_parts n a, -ℤ_parts n b)

sub_zero : (n : ℕ) → (pos n -ℤ pos 0) ≡ pos n
unfolding ◌-ℤ◌
sub_zero n = ground arith

scale_flat : (n : ℕ) (q : Quoting) → (pos n *ℤ inventory q (pos 0)) ≡ pos 0
unfolding ◌*ℤ◌
scale_flat n q = ground arith

-- If the rounding is one and the position cap is positive: a larger position never has a higher mid, and the
-- mid at position 0 is the mark.
pub mid_of-leans :
    (round : Rounder) (q : Quoting) (mark_ticks : ℕ) (a b : ℤ)
    → IsRounding round
    → 0 < q.max_position
    → a ≤ℤ b
    → (mid_of round q mark_ticks b ≤ℤ mid_of round q mark_ticks a)
      × (mid_of round q mark_ticks (pos 0) ≡ pos mark_ticks)
unfolding mid_of
mid_of-leans round q mark_ticks a b h some_cap less =
    let d = 10_000 * q.max_position in
    let n = mark_ticks * q.skew_bps in
    let grows =
      h.rising (pos n *ℤ inventory q a) (pos n *ℤ inventory q b) d (omega arith)
        (scale_mono n (inventory q a) (inventory q b) (inventory-mono q a b less)) in
    let none_of : 0 ≡ 0 * d = omega arith in
    let still =
      ap (λ x. round x d) (scale_flat n q)
      ∙ ap (λ k. round (pos k) d) none_of
      ∙ h.whole 0 d (omega arith) in
    (
      sub_antitone (pos mark_ticks) (round (pos n *ℤ inventory q a) d)
          (round (pos n *ℤ inventory q b) d) grows,
      ap (λ x. pos mark_ticks -ℤ x) still ∙ sub_zero mark_ticks,
    )
