-- ===== src/Ticket/Stops/Once.antt =====
-- The loop where every trigger is placed, and where the stop loss never is.
use mathlib.Core.Path.{subst}
use native.Mathlib.Nat.{zero-add}
use anqa_core.Common.{
  ℕ, zero, suc, ◌+◌, ◌*◌, ◌%◌, ◌<◌, ◌≤◌, refl, ◌≡◌, ◌≢◌, inl, inr, ap, sym, ◌∙◌, true, false, none,
  some, ◌∷◌, ◌++◌, arith, Bool-cases, Option-cases,
}
use anqa_core.Common.Ratio.{is_zero}
use anqa_core.Maker.{Rounder}
use anqa_core.Ticket.{Ticket, Quote}
use anqa_core.Ticket.Stops.{
  Kind, take_profit, stop_loss, Net, not_settled_yet, Desk, same_side, trigger_at, place_both,
  arm_round, told_armed, arm_stops,
}
use anqa_core.Ticket.Stops.Arming.{placed_of, wanted}

module _ (round : Rounder) (net : Net) (t : Ticket) (q : Quote) where
  abbrev pub id_at : ℕ → ℕ
  id_at n = net.now n % 1_000_000_000

  round-there :
      (k : ℕ) (s : Desk)
      → ((kind : Kind) (n : ℕ) → net.rejects kind n ≡ false)
      → net.position s.awaits ≡ some (some t.is_long)
      → let end = arm_stops round net t q (suc k) s in
        (end.placed ≡ wanted round t q (id_at s.awaits) ++ s.placed)
        × (end.notes ≡ told_armed t s.notes)
  unfolding arm_stops arm_round place_both wanted
  round-there k s fine there =
      let same : same_side t.is_long t.is_long ≡ true = ground arith in
      ground (
        arith,
        there,
        same,
        fine take_profit (s.awaits + 1),
        fine stop_loss (s.awaits + 1),
        fine stop_loss (s.awaits + 1 + 1),
      )

  round-early :
      (k : ℕ) (s : Desk)
      → net.position s.awaits ≢ some (some t.is_long)
      → arm_stops round net t q (suc k) s
        ≡ arm_stops round net t q k (record s { awaits = s.awaits + 1 })
  unfolding arm_stops arm_round
  round-early k s early = elim (Option-cases (net.position s.awaits)) [
    | inl e ↦ ground (arith, e)
    | inr (none, e) ↦ ground (arith, e)
    | inr (some side, e) ↦ elim (Bool-cases (same_side t.is_long side)) [
      | inr other ↦ ground (arith, e, other)
      | inl same ↦
          let equal : side ≡ t.is_long = ground (arith, same) in
          absurd (early (e ∙ ap (λ b. some (some b)) equal))
    ]
  ]

  -- If no trigger is rejected and, after `early` reads that fail or find no position or one on the other
  -- side, one of the next of `k` reads finds the position: each stop that was asked for is placed once,
  -- and the trader is told so, if there is one.
  pub arm_stops-once :
      (k early : ℕ) (s : Desk)
      → early < k
      → ((kind : Kind) (n : ℕ) → net.rejects kind n ≡ false)
      → ((i : ℕ) → i < early → net.position (s.awaits + i) ≢ some (some t.is_long))
      → net.position (s.awaits + early) ≡ some (some t.is_long)
      → let end = arm_stops round net t q k s in
        (end.placed ≡ wanted round t q (id_at (s.awaits + early)) ++ s.placed)
        × (end.notes ≡ told_armed t s.notes)
  arm_stops-once zero early s in_time fine before there = ground (arith, in_time)
  arm_stops-once (suc k) zero s in_time fine before there =
      let here : s.awaits + 0 ≡ s.awaits = ground arith in
      let found : net.position s.awaits ≡ some (some t.is_long) =
        subst (λ n. net.position n ≡ some (some t.is_long)) here there in
      subst
        (λ n.
          let end = arm_stops round net t q (suc k) s in
          (end.placed ≡ wanted round t q (id_at n) ++ s.placed)
          × (end.notes ≡ told_armed t s.notes))
        (sym here) (round-there k s fine found)
  arm_stops-once (suc k) (suc early) s in_time fine before there =
      let s' = record s { awaits = s.awaits + 1 } in
      let later : (i : ℕ) → s.awaits + 1 + i ≡ s.awaits + suc i = λ i. ground arith in
      let rest =
        arm_stops-once k early s' (ground (arith, in_time)) fine
          (λ i h e. before (suc i) (ground (arith, h)) (ap net.position (sym (later i)) ∙ e))
          (ap net.position (later early) ∙ there) in
      let start : s.awaits + 0 ≡ s.awaits = ground arith in
      let absent : net.position s.awaits ≢ some (some t.is_long) =
        λ e. before 0 (ground arith) (ap net.position start ∙ e) in
      let same = round-early k s absent in
      subst
        (λ n.
          let end = arm_stops round net t q (suc k) s in
          (end.placed ≡ wanted round t q (id_at n) ++ s.placed)
          × (end.notes ≡ told_armed t s.notes))
        (later early)
        (subst
          (λ end.
            (end.placed ≡ wanted round t q (id_at (s.awaits + 1 + early)) ++ s.placed)
            × (end.notes ≡ told_armed t s.notes))
          (sym same) rest)

  -- Where every call throws, a round places nothing.
  arm_stops-full :
      (r : ℕ) (s : Desk)
      → ((kind : Kind) (n : ℕ) → net.lands kind n ≡ false)
      → ((n : ℕ) → net.position n ≡ some (some t.is_long))
      → ((n : ℕ) → s.awaits ≤ n → net.rejects take_profit n ≡ true)
      → is_zero t.take_profit ≡ false
      → let end = arm_stops round net t q r s in
        (end.placed ≡ s.placed) × (end.notes ≡ not_settled_yet ∷ s.notes)
  unfolding arm_stops arm_round place_both
  arm_stops-full zero s lost there full tp = (refl, refl)
  arm_stops-full (suc r) s lost there full tp =
      let same : same_side t.is_long t.is_long ≡ true = ground arith in
      ground (
        arith,
        there s.awaits,
        same,
        full (s.awaits + 1) (omega arith),
        lost take_profit (s.awaits + 1),
        tp,
        arm_stops-full r (record s { awaits = s.awaits + 1 + 1 }) lost there
            (λ n h. full n (omega arith)) tp,
      )

  module _ (lost : (kind : Kind) (n : ℕ) → net.lands kind n ≡ false)
      (there : (n : ℕ) → net.position n ≡ some (some t.is_long))
      (bounces : (n : ℕ) → net.rejects stop_loss n ≡ true) (tp : is_zero t.take_profit ≡ false)
      (sl : is_zero t.stop_loss ≡ false) where
    repeats-in :
        (total k r : ℕ) (s : Desk)
        → total ≡ k + r
        → ((n : ℕ) → n < s.awaits + 3 * k → net.rejects take_profit n ≡ false)
        → ((n : ℕ) → s.awaits + 3 * k ≤ n → net.rejects take_profit n ≡ true)
        → let end = arm_stops round net t q total s in
          (placed_of take_profit end.placed ≡ k + placed_of take_profit s.placed)
          × ((placed_of stop_loss end.placed ≡ placed_of stop_loss s.placed)
              × (end.notes ≡ not_settled_yet ∷ s.notes))
    unfolding arm_stops arm_round place_both placed_of
    repeats-in zero zero r s e lands full = ground arith
    repeats-in zero (suc k) r s e lands full = absurd (omega arith)
    repeats-in (suc total) zero r s e lands full =
        let rest = arm_stops-full (suc total) s lost there (λ n h. full n (omega arith)) tp in
        (
          ap (placed_of take_profit) rest.0 ∙ sym (zero-add _),
          (ap (placed_of stop_loss) rest.0, rest.1),
        )
    repeats-in (suc total) (suc k) r s e lands full =
        let id = id_at s.awaits in
        let s' = record s {
          awaits = s.awaits + 1 + 1 + 1;
          placed = (take_profit, trigger_at round t q id t.is_long t.take_profit) ∷ s.placed;
        } in
        let same : same_side t.is_long t.is_long ≡ true = ground arith in
        let rest =
          repeats-in total k r s' (omega arith) (λ n h. lands n (omega arith))
            (λ n h. full n (omega arith)) in
        ground (
          arith,
          there s.awaits,
          same,
          lands (s.awaits + 1) (omega arith),
          bounces (s.awaits + 1 + 1),
          lost stop_loss (s.awaits + 1 + 1),
          tp,
          sl,
          rest,
        )

    -- If no call that throws has landed, every read finds the position, both stops are asked for, every
    -- stop loss is rejected, and the take profit is placed in the first `k` rounds and rejected from then
    -- on, as where the slots for triggers are full: `k + r` rounds place `k` take profits and no stop
    -- loss, and the trader is told that nothing has settled yet.
    pub arm_stops-repeats :
        (k r : ℕ) (s : Desk)
        → ((n : ℕ) → n < s.awaits + 3 * k → net.rejects take_profit n ≡ false)
        → ((n : ℕ) → s.awaits + 3 * k ≤ n → net.rejects take_profit n ≡ true)
        → let end = arm_stops round net t q (k + r) s in
          (placed_of take_profit end.placed ≡ k + placed_of take_profit s.placed)
          × ((placed_of stop_loss end.placed ≡ placed_of stop_loss s.placed)
              × (end.notes ≡ not_settled_yet ∷ s.notes))
    arm_stops-repeats k r s = repeats-in (k + r) k r s refl
