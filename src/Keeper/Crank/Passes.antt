-- ===== src/Keeper/Crank/Passes.antt =====
-- What one pass over a market may send, and when it ends.
use anqa_core.Common.{
  ℕ, zero, suc, ◌+◌, ◌≤◌, ◌≡◌, ◌⊎◌, inl, inr, refl, Bool, true, false, none, some, List, [], ◌∷◌,
  length, arith, Option-cases, Bool-cases,
}
use anqa_core.Common.Int.{ℤ, pos, ltb_ℤ, ◌≤ℤ◌}
use anqa_core.Common.Async.{Result, ok, err}
use anqa_core.Keeper.Crank.{
  Pass, no_pass, Rollup, measure, crank_tx, crank_burst, burst_loop, burst_size,
  crank_until_current, deep_debt,
}

-- Bursts are of at least two and at most 256 cranks.
abbrev pub AllSized : List ℕ → Type 0
AllSized [] = Unit
AllSized (n ∷ ns) = (2 ≤ n) × (n ≤ 256) × AllSized ns

burst_size-sized : (lag : ℤ) → pos 1 ≤ℤ lag → (2 ≤ burst_size lag) × (burst_size lag ≤ 256)
unfolding burst_size
burst_size-sized lag h = ground arith

-- What is left of a positive lag was left by the loop's bound.
abbrev pub LeftBy : ℕ → ℕ → Result (Unit {0}) ℤ → Type 0
LeftBy rounds done (ok lag) = pos 1 ≤ℤ lag → done ≡ rounds
LeftBy rounds done (err _) = Unit

record IsLoop (rounds : ℕ) (s : Pass) (end : Result (Unit {0}) ℤ × Pass) : Type 0 where
  same_singles : end.1.singles ≡ s.singles
  few : length end.1.bursts ≤ length s.bursts + rounds
  sized : AllSized end.1.bursts
  left : LeftBy (length s.bursts + rounds) (length end.1.bursts) end.0

-- How a pass may end. A positive lag is left either because every burst that the pass was allowed
-- has gone out, or because the debt is deep and the pass is not one that walks it off.
abbrev pub LeftBecause : ℕ → Bool → Pass → Result (Unit {0}) ℤ → Type 0
LeftBecause rounds walk_off s (ok lag) =
    (s.singles ≡ 1)
    × (pos 1 ≤ℤ lag
        → (length s.bursts ≡ rounds)
          ⊎ ((walk_off ≡ false) × (pos (deep_debt + 1) ≤ℤ lag) × (s.bursts ≡ [])))
LeftBecause rounds walk_off s (err _) = Unit

pub record IsPass (rounds : ℕ) (walk_off : Bool) (end : Result (Unit {0}) ℤ × Pass) : Type 0 where
  pub one_probe : end.1.singles ≤ 1
  pub probe_first : (end.1.bursts ≡ []) ⊎ (end.1.singles ≡ 1)
  pub few : length end.1.bursts ≤ rounds
  pub sized : AllSized end.1.bursts
  pub left : LeftBecause rounds walk_off end.1 end.0

module _ (er : Rollup) where
  burst_failed :
      (n : ℕ) (s : Pass)
      → er.burst_fails (length s.bursts) ≡ true
      → crank_burst er n s ≡ (err tt, s)
  unfolding crank_burst
  burst_failed n s e = rw e refl

  burst_goes_out :
      (n : ℕ) (s : Pass)
      → er.burst_fails (length s.bursts) ≡ false
      → crank_burst er n s ≡ (ok tt, record s { bursts = n ∷ s.bursts })
  unfolding crank_burst
  burst_goes_out n s e = rw e refl

  lag_lost : (s : Pass) → er.lag s.measured ≡ none → measure er s ≡ (err tt, s)
  unfolding measure
  lag_lost s e = rw (e, measure) refl

  lag_seen :
      (s : Pass) (l : ℤ)
      → er.lag s.measured ≡ some l
      → measure er s ≡ (ok l, record s { measured = s.measured + 1 })
  unfolding measure
  lag_seen s l e = rw (e, measure) refl

  burst_loop-IsLoop :
      (rounds : ℕ) (lag : ℤ) (s : Pass)
      → AllSized s.bursts
      → IsLoop rounds s (burst_loop er rounds lag s)
  unfolding burst_loop
  burst_loop-IsLoop zero lag s h = ground arith
  burst_loop-IsLoop (suc rounds) lag s h = elim (Bool-cases (ltb_ℤ (pos 0) lag)) [
    | inr done ↦ ground arith
    | inl more ↦ elim (Bool-cases (er.burst_fails (length s.bursts))) [
      | inl fails ↦ ground (arith, burst_failed (burst_size lag) s fails)
      | inr sent ↦ elim (Option-cases (er.lag s.measured)) [
        | inl lost ↦ ground (
          arith,
          burst_size-sized lag (ground arith),
          burst_goes_out (burst_size lag) s sent,
          lag_lost (record s { bursts = burst_size lag ∷ s.bursts }) lost,
        )
        | inr (l, seen) ↦ ground (
          arith,
          burst_size-sized lag (ground arith),
          burst_goes_out (burst_size lag) s sent,
          lag_seen (record s { bursts = burst_size lag ∷ s.bursts }) l seen,
          burst_loop-IsLoop rounds l
              (record {
                measured = s.measured + 1;
                singles = s.singles;
                bursts = burst_size lag ∷ s.bursts;
              })
              (ground (arith, burst_size-sized lag (ground arith))),
        )
      ]
    ]
  ]

  -- Whatever the rollup answers, and whatever throws: a pass sends at most one confirmed crank, and no burst without it;
  -- at most `rounds` bursts, each of 2 to 256 cranks; and if it returns, it has sent the confirmed
  -- crank, and the lag is gone unless its bursts were used up or the debt is too deep for it.
  pub crank_until_current-IsPass :
      (rounds : ℕ) (walk_off : Bool)
      → IsPass rounds walk_off (crank_until_current er rounds walk_off no_pass)
  unfolding crank_until_current measure crank_tx
  crank_until_current-IsPass rounds walk_off = elim (Option-cases (er.lag 0)) [
    | inl lost ↦ ground arith
    | inr (_, first) ↦ elim (Option-cases (er.lag 1)) [
      | inl lost ↦ ground arith
      | inr (l, second) ↦
          ground (
            arith,
            burst_loop-IsLoop rounds l (record { measured = 2; singles = 1; bursts = [] }) tt,
          )
    ]
  ]
