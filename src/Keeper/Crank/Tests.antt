-- ===== src/Keeper/Crank/Tests.antt =====
-- Passes of the cranks against concrete rollups.
use anqa_core.Common.{ℕ, zero, suc, ◌+◌, ◌≡◌, inl, inr, refl, ap, false, some, List, [], ◌∷◌, arith}
use anqa_core.Common.Int.{pos}
use anqa_core.Common.Async.{ok}
use anqa_core.Keeper.Crank.{
  burst_size, no_pass, crank_until_current, measure, crank_tx, crank_burst, burst_loop, Debtor,
  worst_of, worst_from,
}
use anqa_core.Keeper.Crank.Passes.{IsPass, crank_until_current-IsPass}
use anqa_core.Keeper.Crank.Bursts.{Gains, steady}

-- A rollup whose clock a burst brings from 30,000 slots behind to 6,960, and the next one to 0.
abbrev lag_of : ℕ → ℕ
lag_of zero = 53_100
lag_of (suc zero) = 30_000
lag_of (suc (suc zero)) = 6_960
lag_of (suc (suc (suc n))) = 0

-- The lag is gone after two bursts, of 256 and of 79 cranks.
two_bursts :
    crank_until_current (steady lag_of) 3 false no_pass
    ≡ (ok (pos 0), record { measured = 4; singles = 1; bursts = 79 ∷ 256 ∷ [] })
unfolding crank_until_current measure crank_tx burst_loop crank_burst burst_size
two_bursts = refl

crank_until_current-IsPass_example :
    IsPass 3 false (crank_until_current (steady lag_of) 3 false no_pass)
crank_until_current-IsPass_example = crank_until_current-IsPass (steady lag_of) 3 false

lag_of-Gains : Gains lag_of
unfolding burst_size
lag_of-Gains zero = inl (omega arith)
lag_of-Gains (suc zero) = inl (omega arith)
lag_of-Gains (suc (suc zero)) = inr refl
lag_of-Gains (suc (suc (suc n))) =
    let e : suc (suc (suc n)) + 1 ≡ suc (suc (suc (suc n))) = omega arith in inr (ap lag_of e)

-- At 2,000 ms: one market is deep in debt but put off, one is deeper than the other two.
abbrev debtors : List Debtor
debtors =
    record { id = 1; lag = pos 900_000; retry_at = 5_000 }
    ∷ record { id = 2; lag = pos 60_000; retry_at = 0 }
    ∷ record { id = 3; lag = pos 70_000; retry_at = 2_000 }
    ∷ record { id = 4; lag = pos 10; retry_at = 0 }
    ∷ []

debtors-worst : worst_of 2_000 debtors ≡ some 3
unfolding worst_of worst_from
debtors-worst = refl
