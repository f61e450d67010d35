-- ===== src/Rpc/Retry.antt =====
-- The retrying `fetch` and its waits.
use anqa_core.Common.{
  ℕ, zero, suc, ◌+◌, ◌*◌, ◌/◌, ◌^◌, ◌≤◌, ◌<◌, ◌≡◌, refl, true, false, Option, none, some, List, [],
  ◌∷◌, length, leb, arith, min, Bool-cases, ◌⊎◌, inl, inr,
}
use anqa_core.Rpc.{
  backoff_ms, random_range, Reply, failed, response, Fetched, returned, thrown, out_of_fuel,
  retryable, Run, attempts, retrying_fetch,
}

-- What jitter does to a base.
jitter_bounds :
    (b r : ℕ)
    → r < random_range
    → (b ≤ (b * random_range + r * b) / random_range)
      × ((b * random_range + r * b) / random_range ≤ 2 * b)
jitter_bounds b r h =
    let most : r * b ≤ random_range * b = grind arith in (omega (arith, most), omega (arith, most))

-- With a random number below 1, a wait without a usable header lies between its base and twice the base, which doubles from 500 ms
-- and stops at 8 s; a header in milliseconds above zero is obeyed, up to 15 s.
pub backoff_ms_bounds :
    (attempt r ms : ℕ)
    → r < random_range
    → 0 < ms
    → (min (500 * 2 ^ attempt) 8_000 ≤ backoff_ms attempt none r)
      × (backoff_ms attempt none r ≤ 2 * min (500 * 2 ^ attempt) 8_000)
      × (backoff_ms attempt none r ≤ 16_000)
      × (backoff_ms attempt (some ms) r ≡ min ms 15_000)
unfolding backoff_ms
backoff_ms_bounds attempt r ms h some_wait =
    let (least, most) = jitter_bounds (min (500 * 2 ^ attempt) 8_000) r h in
    (least, most, omega (arith, most), ground arith)

backoff_ms-le :
    (attempt r : ℕ) (header : Option ℕ) → r < random_range → backoff_ms attempt header r ≤ 16_000
unfolding backoff_ms
backoff_ms-le attempt r none h = omega (arith, jitter_bounds (min (500 * 2 ^ attempt) 8_000) r h)
backoff_ms-le attempt r (some ms) h =
    let (_, most) = jitter_bounds (min (500 * 2 ^ attempt) 8_000) r h in
    let cap : min ms 15_000 ≤ 16_000 = omega arith in ground (arith, most, cap)

Reply-cases :
    (r : Reply) → (r ≡ failed) ⊎ ((status : ℕ) × (header : Option ℕ) × (r ≡ response status header))
Reply-cases failed = inl refl
Reply-cases (response status header) = inr (status, header, refl)

abbrev pub AllAtMost : ℕ → List ℕ → Type 0
AllAtMost m [] = Unit
AllAtMost m (x ∷ xs) = (x ≤ m) × AllAtMost m xs

-- How a call may end: what it reports is final, or comes from the last attempt that is allowed.
abbrev pub Final : ℕ → Fetched → ℕ → Type 0
Final max_retries (returned status) requests = retryable status ≡ true → requests ≡ max_retries + 1
Final max_retries thrown requests = requests ≡ max_retries + 1
Final max_retries out_of_fuel requests = ⊥

pub record IsSettled (max_retries : ℕ) (end : Fetched × Run) : Type 0 where
  pub final : Final max_retries end.0 end.1.requests
  pub few : end.1.requests ≤ max_retries + 1
  pub one_wait_between : length end.1.waits + 1 ≡ end.1.requests
  pub short_waits : AllAtMost 16_000 end.1.waits

module _ (max_retries : ℕ) (reply : ℕ → Reply) (random : ℕ → ℕ)
    (in_range : (n : ℕ) → random n < random_range) where
  attempts-IsSettled :
      (fuel attempt : ℕ) (s : Run)
      → fuel + attempt ≡ max_retries + 1
      → attempt ≤ max_retries
      → s.requests ≡ attempt
      → length s.waits ≡ attempt
      → AllAtMost 16_000 s.waits
      → IsSettled max_retries (attempts max_retries reply random fuel attempt s)
  unfolding attempts
  attempts-IsSettled zero attempt s enough more asked waits short = absurd (omega arith)
  attempts-IsSettled (suc fuel) attempt s enough more asked waits short =
      let again = λ (header : Option ℕ) (left : leb max_retries attempt ≡ false).
        attempts-IsSettled fuel (attempt + 1)
          (record {
            requests = s.requests + 1;
            waits = backoff_ms attempt header (random attempt) ∷ s.waits;
          })
          (omega arith) (ground arith) (omega arith) (omega arith)
          (backoff_ms-le attempt (random attempt) header (in_range attempt), short) in
      elim (Reply-cases (reply attempt)) [
        | inl e ↦ elim (Bool-cases (leb max_retries attempt)) [
          | inl last ↦ rw (e, attempts, last) (ground arith)
          | inr left ↦ rw (e, attempts, left) (again none left)
        ]
        | inr (status, header, e) ↦ elim (Bool-cases (retryable status)) [
          | inr fine ↦ rw (e, attempts, fine) (ground arith)
          | inl bad ↦ elim (Bool-cases (leb max_retries attempt)) [
            | inl last ↦ rw (e, attempts, bad, last) (ground arith)
            | inr left ↦ rw (e, attempts, bad, left) (again header left)
          ]
        ]
      ]

  -- With random numbers below 1, the loop ends within `max_retries + 1` requests, whatever the endpoint answers. It waits once
  -- between two requests, at most 16 s; and it throws, or hands a rate limit or a server error to the
  -- caller, only after the last attempt that is allowed.
  pub retrying_fetch-IsSettled : IsSettled max_retries (retrying_fetch max_retries reply random)
  unfolding retrying_fetch
  retrying_fetch-IsSettled =
      attempts-IsSettled (max_retries + 1) 0 (record { requests = 0; waits = [] }) (omega arith)
        (omega arith) refl refl tt
