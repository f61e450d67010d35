-- ===== src/Rpc/Tests.antt =====
-- The connection's helpers against concrete endpoints.
use anqa_core.Common.{ℕ, zero, suc, ◌+◌, ◌*◌, ◌≡◌, refl, false, Option, none, some, [], ◌∷◌, arith}
use anqa_core.Rpc.{
  acquire, release, backoff_ms, Reply, response, failed, returned, attempts, retrying_fetch,
  confirmed, processed, finalized, Status, success, reached, poll, confirm_transaction,
}
use anqa_core.Rpc.Semaphore.{
  World, fresh, arrive, leave, Reach, start, arriving, leaving, IsValid, pool-IsValid,
}
use anqa_core.Rpc.Retry.{IsSettled, retrying_fetch-IsSettled}
use anqa_core.Rpc.Confirm.{Justified, confirm_transaction-Justified}

-- Three callers at a ceiling of two, and one of them leaves.
abbrev crowd : World
crowd = leave (arrive 2 12 (arrive 2 11 (arrive 2 10 fresh)))

crowd-Reach : Reach 2 crowd
unfolding arrive acquire
crowd-Reach = leaving (arriving 12 (arriving 11 (arriving 10 start))) (omega arith)

crowd-entered :
    (crowd.entered ≡ 10 ∷ 11 ∷ 12 ∷ []) × (crowd.pool.inflight ≡ 2) × (crowd.pool.queue ≡ [])
unfolding arrive acquire leave release
crowd-entered = (refl, refl, refl)

pool-IsValid_example : IsValid 2 crowd
pool-IsValid_example = pool-IsValid crowd-Reach

-- A rate limit, a dropped connection, and then an answer.
abbrev flaky : ℕ → Reply
flaky zero = response 429 (some 2_000)
flaky (suc zero) = failed
flaky (suc (suc n)) = response 200 none

flaky-run :
    retrying_fetch 5 flaky (λ _. 0)
    ≡ (returned 200, record { requests = 3; waits = 1_000 ∷ 2_000 ∷ [] })
unfolding retrying_fetch attempts backoff_ms
flaky-run = refl

retrying_fetch-IsSettled_example : IsSettled 5 (retrying_fetch 5 flaky (λ _. 0))
retrying_fetch-IsSettled_example = retrying_fetch-IsSettled 5 flaky (λ _. 0) (λ _. omega arith)

-- Half a second a round; the status shows in the third.
abbrev seen_at : ℕ → Option (Option Status)
seen_at zero = some none
seen_at (suc zero) = some (some (record { failed = false; level = processed }))
seen_at (suc (suc n)) = some (some (record { failed = false; level = finalized }))

third_round :
    confirm_transaction (λ n. 1_000 + 500 * n) seen_at (λ _. some 7) confirmed (some 9) 1_000
    ≡ success
unfolding confirm_transaction poll reached
third_round = refl

confirm_transaction-Justified_example :
    Justified
      (λ n. 1_000 + 500 * n)
      seen_at
      (λ _. some 7)
      confirmed
      (some 9)
      61_000
      (confirm_transaction (λ n. 1_000 + 500 * n) seen_at (λ _. some 7) confirmed (some 9) 1_000)
confirm_transaction-Justified_example =
    confirm_transaction-Justified (λ n. 1_000 + 500 * n) seen_at (λ _. some 7) confirmed (some 9)
      1_000 (λ n. omega arith)
