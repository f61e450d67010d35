-- ===== src/Rpc.antt =====
-- app/rpc.ts: the base-layer connection. A counting semaphore with a queue, the retrying `fetch`, and
-- confirmation over HTTP. Times are whole milliseconds.
pub mod Semaphore
pub mod Retry
pub mod Confirm
mod Tests
use anqa_core.Common.{
  ℕ, zero, suc, ◌+◌, ◌-◌, ◌*◌, ◌/◌, ◌^◌, Bool, true, false, not, ◌&&◌, ◌||◌, Option, none, some,
  List, [], ◌∷◌, ◌++◌, ltb, leb, ◌==◌, if◌then◌else◌, min,
}

abbrev pub Ticket : Type 0
Ticket = ℕ

-- The module's variables `inflight` and `queue`; a queued resolver is the ticket of its caller.
pub record Pool : Type 0 where
  pub inflight : ℕ
  pub queue : List Ticket

-- `acquire()`: the new state, and whether the promise is resolved at once.
unfoldable pub acquire : ℕ → Ticket → Pool → Pool × Bool
acquire max_inflight t p =
    if ltb p.inflight max_inflight
    then (record p { inflight = p.inflight + 1 }, true)
    else (record p { queue = p.queue ++ (t ∷ []) }, false)

abbrev hand_over : List Ticket → Pool → Pool × Option Ticket
hand_over [] p = (record p { inflight = p.inflight - 1 }, none)
hand_over (t ∷ ts) p = (record p { queue = ts }, some t)

-- `release()`: the new state, and the waiter whose promise it resolves.
unfoldable pub release : Pool → Pool × Option Ticket
release p = hand_over p.queue p

-- `Math.random()` is `r / 2^53`.
abbrev pub random_range : ℕ
random_range = 2 ^ 53

-- `backoffMs`; `server` is the `retry-after` header in milliseconds, absent where it is missing or no
-- finite number. `setTimeout` drops what is below a millisecond.
unfoldable pub backoff_ms : ℕ → Option ℕ → ℕ → ℕ
backoff_ms attempt server r =
    let base = min (500 * 2 ^ attempt) 8_000 in
    let jittered = (base * random_range + r * base) / random_range in
    elim server [ none ↦ jittered | some ms ↦ if ltb 0 ms then min ms 15_000 else jittered ]

-- What one `fetch` comes to.
pub data Reply : Type 0 where
  failed : Reply
  response : ℕ → Option ℕ → Reply

pub data Fetched : Type 0 where
  returned : ℕ → Fetched
  thrown : Fetched
  out_of_fuel : Fetched

abbrev pub retryable : ℕ → Bool
retryable status = (status == 429) || (leb 500 status && ltb status 600)

-- What the loop has done: the number of requests, and the waits, the last one first.
pub record Run : Type 0 where
  pub requests : ℕ
  pub waits : List ℕ

abbrev asked : Run → Run
asked s = record s { requests = s.requests + 1 }

abbrev waited : ℕ → Run → Run
waited ms s = record s { waits = ms ∷ s.waits }

module _ (max_retries : ℕ) (reply : ℕ → Reply) (random : ℕ → ℕ) where
  -- The `for` loop of `retryingFetch`, from `attempt` on.
  unfoldable pub attempts : ℕ → ℕ → Run → Fetched × Run
  unfolding backoff_ms
  attempts zero attempt s = (out_of_fuel, s)
  attempts (suc fuel) attempt s =
      let s' = asked s in
      elim (reply attempt) [
        | failed ↦
            let wait = waited (backoff_ms attempt none (random attempt)) s' in
            let more = attempts fuel (attempt + 1) wait in
            if leb max_retries attempt then (thrown, s') else more
        | response status header ↦
            let wait = waited (backoff_ms attempt header (random attempt)) s' in
            let more = attempts fuel (attempt + 1) wait in
            if not (retryable status)
            then (returned status, s')
            else (if leb max_retries attempt then (returned status, s') else more)
      ]

  -- The loop has no bound of its own; `max_retries + 1` rounds are enough.
  unfoldable pub retrying_fetch : Fetched × Run
  unfolding attempts
  retrying_fetch = attempts (max_retries + 1) 0 (record { requests = 0; waits = [] })

-- The `confirmationStatus` of a signature.
pub data Level : Type 0 where
  processed confirmed finalized : Level

pub record Status : Type 0 where
  pub failed : Bool
  pub level : Level

pub data Confirmation : Type 0 where
  success : Confirmation
  failure : Confirmation
  expired : Confirmation
  timed_out : Confirmation
  broken : Confirmation
  no_fuel : Confirmation

abbrev is_finalized : Level → Bool
is_finalized finalized = true
is_finalized _ = false

abbrev is_confirmed : Level → Bool
is_confirmed confirmed = true
is_confirmed _ = false

abbrev is_processed : Level → Bool
is_processed processed = true
is_processed _ = false

-- `done`, of the level that is asked for and the level that is reported.
unfoldable pub reached : Level → Level → Bool
reached commitment level =
    is_processed commitment
    || (is_finalized level || (is_confirmed commitment && is_confirmed level))

-- What follows one `getBlockHeight`, which is not asked where there is no last valid height.
abbrev pub after_height : Option ℕ → Option ℕ → Confirmation → Confirmation
after_height none height again = again
after_height (some last_valid) none again = broken
after_height (some last_valid) (some height) again =
    if ltb last_valid height then expired else again

-- What a round makes of the status it has read.
abbrev pub judge : Level → Option Status → Confirmation → Confirmation
judge commitment none waiting = waiting
judge commitment (some st) waiting =
    if st.failed then failure else (if reached commitment st.level then success else waiting)

-- What the RPC and the clock answer in the `n`th round; a read that is `none` throws.
module _ (clock : ℕ → ℕ) (status : ℕ → Option (Option Status)) (height : ℕ → Option ℕ) where
  -- The `while` loop of `confirmTransaction`.
  unfoldable pub poll : Level → Option ℕ → ℕ → ℕ → ℕ → Confirmation
  unfolding reached
  poll commitment last_valid deadline zero n = no_fuel
  poll commitment last_valid deadline (suc fuel) n =
      let again = poll commitment last_valid deadline fuel (n + 1) in
      let waiting = after_height last_valid (height n) again in
      if ltb (clock n) deadline
      then elim (status n) [ none ↦ broken | some st ↦ judge commitment st waiting ]
      else timed_out

  -- The clock is read once for the deadline; a round sleeps 250 ms, so 241 rounds pass 60 s.
  unfoldable pub confirm_transaction : Level → Option ℕ → ℕ → Confirmation
  unfolding poll
  confirm_transaction commitment last_valid start =
      poll commitment last_valid (start + 60_000) 241 0
